-- ===== src/Telemctl/Opting.antt =====
-- What a host that has opted out is kept from.
use telemetrics_client.Base.Int.{is_minus_one}
use telemetrics_client.Base.{
  ℕ, ◌≡◌, ◌≢◌, inl, inr, refl, ap, true, false, List, [], ◌∷◌, Option, none, some, ◌==◌, arith,
  Bool-cases, if_false,
}
use telemetrics_client.Base.Bytes.{Bytes, codes, equal, is_prefix}
use telemetrics_client.Base.Run.{Run, done}
use telemetrics_client.Telemctl.{
  Command, stop, start, restart, is_active, opt_in, opt_out, mk_telem_dir, create_opt_out,
  telemctl_opt_out, find_command, run_command, run_found, telemctl,
}
use telemetrics_client.Telemctl.Services.{
  Host, ControlState, ran, service_command, for_each_service, special_units, services,
  telemctl_start, telemctl_stop, telemctl_restart, telemctl_is_active,
}

-- No service is started.
abbrev pub NoStart : List Bytes → Type 0
NoStart [] = Unit
NoStart (cmd ∷ cmds) = (is_prefix (codes "systemctl start") cmd ≡ false) × NoStart cmds

-- The opt-out file is there and no service was started.
abbrev pub IsOptedOut : ControlState → Type 0
IsOptedOut s = (s.opted_out ≡ true) × NoStart s.commands

for_each_service-IsOptedOut :
    (h : Host) (units : List Bytes) (ret : ℕ) (s : ControlState)
    → IsOptedOut s
    → IsOptedOut (for_each_service h (codes "stop") units ret s).1
unfolding for_each_service ran
for_each_service-IsOptedOut h [] ret s o = o
for_each_service-IsOptedOut h (u ∷ units) ret s o =
    for_each_service-IsOptedOut h units _ (ran (service_command (codes "stop") u) s)
      (o.0, (unfold service_command is_prefix in refl, o.1))

telemctl_stop-IsOptedOut :
    (h : Host) (s : ControlState) → IsOptedOut s → IsOptedOut (telemctl_stop h s).1
unfolding telemctl_stop
telemctl_stop-IsOptedOut h s o =
    let (ret, s') = for_each_service h (codes "stop") special_units 0 s in
    for_each_service-IsOptedOut h services ret s'
      (for_each_service-IsOptedOut h special_units 0 s o)

telemctl_start-IsOptedOut :
    (h : Host) (s : ControlState) → IsOptedOut s → telemctl_start h s ≡ (1, s)
unfolding telemctl_start
telemctl_start-IsOptedOut h s o = rw o.0 refl

telemctl_restart-IsOptedOut :
    (h : Host) (s : ControlState) → IsOptedOut s → IsOptedOut (telemctl_restart h s).1
unfolding telemctl_restart
telemctl_restart-IsOptedOut h s o =
    let stopped = telemctl_stop-IsOptedOut h s o in
    elim (Bool-cases ((telemctl_stop h s).0 == 0)) [
      | inl well ↦ rw (well, telemctl_start-IsOptedOut h (telemctl_stop h s).1 stopped) stopped
      | inr badly ↦ rw badly stopped
    ]

mk_telem_dir-IsOptedOut :
    (h : Host) (s : ControlState) → IsOptedOut s → IsOptedOut (mk_telem_dir h s).1
unfolding mk_telem_dir ran is_prefix
mk_telem_dir-IsOptedOut h s o = elim (Bool-cases h.telem_dir) [
  | inl there ↦ rw there o
  | inr missing ↦ rw missing (o.0, (refl, o.1))
]

-- It returns, and the host is still opted out.
abbrev Keeps : Run (ℕ × ControlState) → Type 0
Keeps r = (n : ℕ) × (s : ControlState) × (r ≡ done (n, s)) × IsOptedOut s

Keeps-telemctl_opt_out : (h : Host) (s : ControlState) → IsOptedOut s → Keeps (telemctl_opt_out h s)
unfolding telemctl_opt_out create_opt_out
Keeps-telemctl_opt_out h s o =
    let made = mk_telem_dir-IsOptedOut h s o in
    elim (Bool-cases ((mk_telem_dir h s).0 == 0)) [
      | inl well ↦ (0, (mk_telem_dir h s).1, rw (well, made.0) refl, made)
      | inr badly ↦ (1, (mk_telem_dir h s).1, rw badly refl, made)
    ]

telemctl_is_active-IsOptedOut :
    (h : Host) (s : ControlState) → IsOptedOut s → IsOptedOut (telemctl_is_active h s).1
unfolding telemctl_is_active ran is_prefix
telemctl_is_active-IsOptedOut h s o =
    elim (Bool-cases (is_minus_one (h.syscmd (codes "systemctl is-active telemprobd.socket")).0)) [
      | inl fails ↦ rw fails (o.0, (refl, o.1))
      | inr well ↦ rw well (o.0, (refl, (refl, o.1)))
    ]

Keeps-run_command :
    (h : Host) (c : Command) (s : ControlState)
    → c ≢ opt_in
    → IsOptedOut s
    → Keeps (run_command h c s)
unfolding run_command
Keeps-run_command h stop s n o = (_, _, refl, telemctl_stop-IsOptedOut h s o)
Keeps-run_command h start s n o = (1, s, ap done (telemctl_start-IsOptedOut h s o), o)
Keeps-run_command h restart s n o = (_, _, refl, telemctl_restart-IsOptedOut h s o)
Keeps-run_command h is_active s n o = (_, _, refl, telemctl_is_active-IsOptedOut h s o)
Keeps-run_command h opt_in s n o = absurd (n refl)
Keeps-run_command h opt_out s n o = Keeps-telemctl_opt_out h s o

find_command-opt_in :
    (name : Bytes) (c : Command)
    → equal (codes "opt-in") name ≡ false
    → find_command name ≡ some c
    → c ≢ opt_in
unfolding find_command
find_command-opt_in name c other e is = ground (arith, other, e, is)

Keeps-run_found :
    (h : Host) (o : Option Command) (name : Bytes) (args : List Bytes) (s : ControlState)
    → ((c : Command) → o ≡ some c → c ≢ opt_in)
    → equal (codes "journal") name ≡ false
    → IsOptedOut s
    → Keeps (run_found h o name args s)
unfolding run_found
Keeps-run_found h none name args s n j k = (2, s, if_false (equal (codes "journal") name) _ _ j, k)
Keeps-run_found h (some c) name [] s n j k = elim (Bool-cases h.is_root) [
  | inl root ↦ rw root (Keeps-run_command h c s (n c refl) k)
  | inr other ↦ (1, s, rw other refl, k)
]
Keeps-run_found h (some c) name (a ∷ args) s n j k = (_, s, refl, k)

-- On a host whose opt-out file is there and on which no service was started, telemctl with any
-- arguments but `opt-in` and `journal` as the first returns, the file is still there, and no service
-- was started.
pub telemctl-IsOptedOut :
    (h : Host) (name : Bytes) (args : List Bytes) (s : ControlState)
    → equal (codes "opt-in") name ≡ false
    → equal (codes "journal") name ≡ false
    → IsOptedOut s
    → (n : ℕ) × (s' : ControlState) × (telemctl h (name ∷ args) s ≡ done (n, s')) × IsOptedOut s'
unfolding telemctl
telemctl-IsOptedOut h name args s i j o =
    Keeps-run_found h (find_command name) name args s (λ c e. find_command-opt_in name c i e) j o
