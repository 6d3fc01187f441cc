-- ===== src/Telemctl/Folders.antt =====
-- What opting out does to the services and the folders.
use telemetrics_client.Common.{path_max}
use telemetrics_client.Base.{
  ◌≤◌, and_left, and_right, ℕ, ◌≡◌, inl, inr, refl, ap, ◌∙◌, Bool, true, false, ◌&&◌, List, [], ◌∷◌,
  ◌++◌, Option, none, some, ltb, ◌==◌, if◌then◌else◌, length, arith, Bool-cases, if_false, if_true,
}
use telemetrics_client.Base.Bytes.{Bytes, codes, equal, equal→eq}
use telemetrics_client.Base.Run.{done}
use telemetrics_client.Client.Socket.{SocketCalls, Wrote, tm_send_record, minus_econnrefused}
use telemetrics_client.Record.Wire.{TelemRecord}
use telemetrics_client.Telemctl.{
  opt_out_file, removes, unlink_all, rm_rf, is_telemetry, remove_folder, remove_folders,
  scan_folder, telemctl_remove_work_dirs, mk_telem_dir, create_opt_out, telemctl_opt_out,
}
use telemetrics_client.Telemctl.Services.{
  Host, ControlState, Folder, absent, stat_fails, owned, ran, service_command, for_each_service,
  special_units, services, telemctl_stop,
}

-- nftw was called for folders of telemetry:telemetry only, whatever lay below them.
abbrev pub AreOwned : Host → List (Bytes × List Bytes) → Type 0
AreOwned h [] = Unit
AreOwned h ((path, below) ∷ before) =
    (h.folder before path ≡ owned (some (codes "telemetry")) (some (codes "telemetry")))
    × (below ≡ h.nftw before path)
    × AreOwned h before

-- The opt-out file does not lie below the folder.
abbrev pub SparesOptOut : Host → Bytes → Type 0
SparesOptOut h path =
    (before : List (Bytes × List Bytes)) → removes opt_out_file (h.nftw before path) ≡ false

still_opted_out : (b : Bool) → (b && true) ≡ b
still_opted_out false = refl
still_opted_out true = refl

rm_rf_keeps :
    (h : Host) (path : Bytes) (f : Folder) (s : ControlState)
    → SparesOptOut h path
    → ((rm_rf h path f s).opted_out ≡ s.opted_out) × ((rm_rf h path f s).commands ≡ s.commands)
unfolding rm_rf unlink_all
rm_rf_keeps h path absent s p = (refl, refl)
rm_rf_keeps h path stat_fails s p = (refl, refl)
rm_rf_keeps h path (owned user group) s p =
    elim (Bool-cases (is_telemetry user && is_telemetry group)) [
      | inl both ↦ rw (both, p s.removed) (still_opted_out s.opted_out, refl)
      | inr other ↦ rw other (refl, refl)
    ]

AreOwned-rm_rf :
    (h : Host) (path : Bytes) (f : Folder) (s : ControlState)
    → h.folder s.removed path ≡ f
    → AreOwned h s.removed
    → AreOwned h (rm_rf h path f s).removed
unfolding rm_rf unlink_all
AreOwned-rm_rf h path absent s e a = a
AreOwned-rm_rf h path stat_fails s e a = a
AreOwned-rm_rf h path (owned none group) s e a = a
AreOwned-rm_rf h path (owned (some u) none) s e a =
    elim (Bool-cases (equal u (codes "telemetry"))) [ inl is ↦ rw is a | inr other ↦ rw other a ]
AreOwned-rm_rf h path (owned (some u) (some g)) s e a =
    elim (Bool-cases (equal u (codes "telemetry") && equal g (codes "telemetry"))) [
      | inr other ↦ rw other a
      | inl both ↦
          let user : u ≡ codes "telemetry" = equal→eq u _ (and_left _ _ both) in
          let group : g ≡ codes "telemetry" = equal→eq g _ (and_right _ _ both) in
          rw both (e ∙ (λ i. owned (some (user i)) (some (group i))), refl, a)
    ]

-- What a folder's name in a line of the file has room for.
abbrev pub AreShort : List Bytes → Type 0
AreShort [] = Unit
AreShort (line ∷ lines) = (length (scan_folder line) ≤ path_max) × AreShort lines

-- The opt-out file lies below none of the folders that the lines name.
abbrev pub SpareOptOut : Host → List Bytes → Type 0
SpareOptOut h [] = Unit
SpareOptOut h (line ∷ lines) = SparesOptOut h (scan_folder line) × SpareOptOut h lines

remove_folder-AreOwned :
    (h : Host) (path : Bytes) (s : ControlState)
    → length path ≤ path_max
    → SparesOptOut h path
    → AreOwned h s.removed
    → (s' : ControlState) × (remove_folder h path s ≡ done s')
      × AreOwned h s'.removed
      × (s'.opted_out ≡ s.opted_out)
      × (s'.commands ≡ s.commands)
unfolding remove_folder
remove_folder-AreOwned h [] s l p a = (s, refl, a, refl, refl)
remove_folder-AreOwned h (c ∷ cs) s l p a =
    let (opted, commands) = rm_rf_keeps h (c ∷ cs) (h.folder s.removed (c ∷ cs)) s p in
    (
      rm_rf h (c ∷ cs) (h.folder s.removed (c ∷ cs)) s,
      if_false (ltb path_max (length (c ∷ cs))) _ _ (ground (arith, l)),
      AreOwned-rm_rf h (c ∷ cs) (h.folder s.removed (c ∷ cs)) s refl a,
      opted,
      commands,
    )

remove_folders-AreOwned :
    (h : Host) (lines : List Bytes) (s : ControlState)
    → AreShort lines
    → SpareOptOut h lines
    → AreOwned h s.removed
    → (s' : ControlState) × (remove_folders h lines s ≡ done s')
      × AreOwned h s'.removed
      × (s'.opted_out ≡ s.opted_out)
      × (s'.commands ≡ s.commands)
unfolding remove_folders
remove_folders-AreOwned h [] s l p a = (s, refl, a, refl, refl)
remove_folders-AreOwned h (line ∷ lines) s l p a =
    let (t, removed, a', opted, commands) =
      remove_folder-AreOwned h (scan_folder line) s l.0 p.0 a in
    let (u, rest, a'', opted', commands') = remove_folders-AreOwned h lines t l.1 p.1 a' in
    (u, rw (removed, rest) refl, a'', opted' ∙ opted, commands' ∙ commands)

-- The commands for the units one after the other, in front of those before.
abbrev pub stopping : List Bytes → List Bytes → List Bytes
stopping [] commands = commands
stopping (u ∷ units) commands = stopping units ((codes "systemctl stop " ++ u) ∷ commands)

for_each_service-stopping :
    (h : Host) (units : List Bytes) (ret : ℕ) (s : ControlState)
    → let s' = (for_each_service h (codes "stop") units ret s).1 in
      (s'.commands ≡ stopping units s.commands)
      × (s'.opted_out ≡ s.opted_out)
      × (s'.removed ≡ s.removed)
unfolding for_each_service ran service_command
for_each_service-stopping h [] ret s = (refl, refl, refl)
for_each_service-stopping h (u ∷ units) ret s =
    for_each_service-stopping h units _ (ran (service_command (codes "stop") u) s)

mk_telem_dir_keeps :
    (h : Host) (s : ControlState)
    → ((mk_telem_dir h s).1.opted_out ≡ s.opted_out) × ((mk_telem_dir h s).1.removed ≡ s.removed)
unfolding mk_telem_dir ran
mk_telem_dir_keeps h s = elim (Bool-cases h.telem_dir) [
  | inl there ↦ rw there (refl, refl)
  | inr missing ↦ rw missing (refl, refl)
]

telemctl_stop-stopping :
    (h : Host) (s : ControlState)
    → ((telemctl_stop h s).1.commands ≡ stopping services (stopping special_units s.commands))
      × ((telemctl_stop h s).1.opted_out ≡ s.opted_out)
      × ((telemctl_stop h s).1.removed ≡ s.removed)
unfolding telemctl_stop
telemctl_stop-stopping h s =
    let (ret, t) = for_each_service h (codes "stop") special_units 0 s in
    let (commands, opted, removed) = for_each_service-stopping h special_units 0 s in
    let (commands', opted', removed') = for_each_service-stopping h services ret t in
    (commands' ∙ ap (stopping services) commands, opted' ∙ opted, removed' ∙ removed)

create_opt_out_new :
    (h : Host) (s : ControlState)
    → s.opted_out ≡ false
    → h.create_fails ≡ false
    → create_opt_out h s
      ≡ telemctl_remove_work_dirs h (telemctl_stop h (record s { opted_out = true })).1
unfolding create_opt_out
create_opt_out_new h s opted created =
    if_false s.opted_out _ _ opted ∙ if_false h.create_fails _ _ created

telemctl_remove_work_dirs_read :
    (h : Host) (s u : ControlState) (lines : List Bytes) (fails : Bool)
    → h.dirs_conf ≡ some (lines, fails)
    → remove_folders h lines s ≡ done u
    → telemctl_remove_work_dirs h s ≡ done (if fails then 1 else 0, u)
unfolding telemctl_remove_work_dirs
telemctl_remove_work_dirs_read h s u lines fails conf gone =
    rw (conf, telemctl_remove_work_dirs) (rw gone refl)

tm_send_record_refuses :
    (opted_out : Bool) (calls : SocketCalls) (writes : List Wrote) (r : TelemRecord)
    (cfg : Option Bytes)
    → opted_out ≡ true
    → tm_send_record opted_out calls writes r cfg ≡ done (some minus_econnrefused, [])
unfolding tm_send_record
tm_send_record_refuses opted_out calls writes r cfg e = if_true opted_out _ _ e

-- Opting out, with the directory of the opt-out file there or made, the file not yet there and
-- created, and telemetrics-dirs.conf read, the names of its folders of at most 4096 bytes and the
-- opt-out file below none of them: telemctl_opt_out returns, the file is there, and each unit was told
-- to stop once, the special units before the services. If nftw, which removes all that lies below a
-- folder whoever owns it, was called for folders of telemetry:telemetry only, it is so after it. And tm_send_record then refuses any record and sends nothing.
pub telemctl_opt_out-AreOwned :
    (h : Host) (s : ControlState) (lines : List Bytes) (fails : Bool)
    → (mk_telem_dir h s).0 ≡ 0
    → s.opted_out ≡ false
    → h.create_fails ≡ false
    → h.dirs_conf ≡ some (lines, fails)
    → AreShort lines
    → SpareOptOut h lines
    → AreOwned h s.removed
    → (n : ℕ) × (s' : ControlState) × (telemctl_opt_out h s ≡ done (n, s'))
      × (s'.opted_out ≡ true)
      × (s'.commands ≡ stopping services (stopping special_units (mk_telem_dir h s).1.commands))
      × AreOwned h s'.removed
      × ((calls : SocketCalls) (writes : List Wrote) (r : TelemRecord) (cfg : Option Bytes)
          → tm_send_record s'.opted_out calls writes r cfg ≡ done (some minus_econnrefused, []))
unfolding telemctl_opt_out
telemctl_opt_out-AreOwned h s lines fails made opted created conf short spares owns =
    let t = (mk_telem_dir h s).1 in
    let (kept, kept_removed) = mk_telem_dir_keeps h s in
    let (commands, out, removed) = telemctl_stop-stopping h (record t { opted_out = true }) in
    let (u, gone, owns', out', commands') =
      remove_folders-AreOwned h lines (telemctl_stop h (record t { opted_out = true })).1 short
        spares (rw (removed, kept_removed) owns) in
    (
      (if fails then 1 else 0),
      u,
      if_true ((mk_telem_dir h s).0 == 0) _ _ (ground (arith, made))
          ∙ create_opt_out_new h t (kept ∙ opted) created
          ∙ telemctl_remove_work_dirs_read h _ u lines fails conf gone,
      out' ∙ out,
      commands' ∙ commands,
      owns',
      λ calls writes r cfg. tm_send_record_refuses u.opted_out calls writes r cfg (out' ∙ out),
    )
