-- ===== src/ProbeDaemon/Moves.antt =====
-- The abstract daemon, and the moves that an accepted client and a served one make.
use telemetrics_client.Base.{
  ℕ, ◌+◌, ◌≡◌, ◌⊎◌, inl, inr, refl, sym, ap, ◌∙◌, Bool, List, [], ◌∷◌, Option, none, some,
  get_elem?, ltb, leb, length, ◌*◌, arith, if_cases,
}
use telemetrics_client.Base.Bytes.{Bytes}
use telemetrics_client.Base.Run.{Run, done, exit, fault, >>=-eq-done}
use telemetrics_client.ProbeDaemon.{
  TelemDaemon, add_client, add_pollfd, del_pollfd, remove_client, remove_at, pollfd_size,
  pollfds_room,
}
use telemetrics_client.ProbeDaemon.Counts.{count, count-remove_at}
use telemetrics_client.ProbeDaemon.Loop.{
  Signal, Turn, goes_on, breaks, stops, fails, waits, accept_client,
}
use telemetrics_client.ProbeDaemon.Receive.{
  Received, receive_record, stage_file, terminate_client, handle_client,
}
use telemetrics_client.Record.Probd.{machine_id}

count_head : (x fd : ℕ) (cs : List ℕ) → count x (fd ∷ cs) ≡ count x (fd ∷ []) + count x cs
unfolding count
count_head x fd cs = ground arith

-- The abstract daemon: how often a descriptor is connected, and the staged files.
pub record View : Type 0 where
  pub connected : ℕ → ℕ
  pub files : List Bytes

abbrev pub view : TelemDaemon → View
view daemon = record { connected = λ x. count x daemon.clients; files = daemon.staged }

-- An accepted client joins; or a client leaves, and its record may have been staged.
pub data Move (accepted : Option ℕ) (v w : View) : Type 0 where
  joins :
      (fd : ℕ)
      → accepted ≡ some fd
      → ((x : ℕ) → w.connected x ≡ count x (fd ∷ []) + v.connected x)
      → w.files ≡ v.files
      → Move accepted v w
  leaves :
      (fd : ℕ)
      → ((x : ℕ) → v.connected x ≡ count x (fd ∷ []) + w.connected x)
      → (w.files ≡ v.files) ⊎ ((file : Bytes) × (w.files ≡ file ∷ v.files))
      → Move accepted v w

pub data Moves (accepted : Option ℕ) (v : View) : View → Type 0 where
  here : Moves accepted v v
  next : {w u : View} → Moves accepted v w → Move accepted w u → Moves accepted v u

-- The daemon at the end of a turn.
abbrev pub daemon_of : Turn → TelemDaemon
daemon_of (goes_on signals daemon) = daemon
daemon_of (breaks signals daemon) = daemon
daemon_of (stops daemon) = daemon
daemon_of (fails daemon) = daemon
daemon_of (waits daemon) = daemon

-- The clients and the files of a daemon.
abbrev tables : TelemDaemon → List ℕ × List Bytes
tables daemon = (daemon.clients, daemon.staged)

add_pollfd-tables :
    (fd : ℕ) (daemon d : TelemDaemon) → add_pollfd fd daemon ≡ done d → tables d ≡ tables daemon
unfolding add_pollfd
add_pollfd-tables fd daemon d e =
    elim (if_cases (leb ((length daemon.pollfds + 1) * pollfd_size) (pollfds_room daemon)) e) [
      | inl (_, is) ↦ let same : tables daemon ≡ tables d = ap after_done is in sym same
      | inr (_, is) ↦ absurd cc
    ]
  where
    after_done : Run TelemDaemon → List ℕ × List Bytes
    after_done (done m) = tables m
    after_done exit = ([], [])
    after_done fault = ([], [])

del_pollfd-tables :
    (i : ℕ) (daemon d : TelemDaemon) → del_pollfd i daemon ≡ done d → tables d ≡ tables daemon
unfolding del_pollfd
del_pollfd-tables i daemon d e = elim (if_cases (ltb i (length daemon.pollfds)) e) [
  | inl (_, is) ↦ let same : tables daemon ≡ tables d = ap after_done is in sym same
  | inr (_, is) ↦ absurd cc
]
  where
    after_done : Run TelemDaemon → List ℕ × List Bytes
    after_done (done m) = tables m
    after_done exit = ([], [])
    after_done fault = ([], [])

pub accept_client-Moves :
    (accepted : Option ℕ) (signals : List Signal) (daemon : TelemDaemon) (t : Turn)
    → accept_client accepted signals daemon ≡ done t
    → Moves accepted (view daemon) (view (daemon_of t))
unfolding accept_client add_client count
accept_client-Moves none signals daemon t e =
    let same : breaks signals daemon ≡ t = cc in rw (sym same) here
accept_client-Moves (some fd) signals daemon t e =
    let (d, added, ended) = >>=-eq-done (add_pollfd fd (add_client fd daemon)) _ e in
    let same : goes_on signals d ≡ t = cc in
    let kept = add_pollfd-tables fd (add_client fd daemon) d added in
    let clients : d.clients ≡ fd ∷ daemon.clients = ap (λ (c, f). c) kept in
    let files : d.staged ≡ daemon.staged = ap (λ (c, f). f) kept in
    rw (sym same)
      (next here (joins fd refl (λ x. rw clients (count_head x fd daemon.clients)) files))

terminate_client_left :
    (i place : ℕ) (daemon d : TelemDaemon)
    → terminate_client i place daemon ≡ done d
    → (d.clients ≡ remove_at place daemon.clients) × (d.staged ≡ daemon.staged)
unfolding terminate_client remove_client
terminate_client_left i place daemon d e =
    let (m, deleted, ended) = >>=-eq-done (del_pollfd i daemon) _ e in
    let kept = del_pollfd-tables i daemon m deleted in
    let same : remove_client place m ≡ d = cc in
    (
      ap (λ q. q.clients) (sym same) ∙ ap (λ (c, f). remove_at place c) kept,
      ap (λ q. q.staged) (sym same) ∙ ap (λ (c, f). f) kept,
    )

stage_file_left :
    (file : Option Bytes) (daemon : TelemDaemon)
    → ((stage_file file daemon).clients ≡ daemon.clients)
      × (((stage_file file daemon).staged ≡ daemon.staged)
          ⊎ ((f : Bytes) × ((stage_file file daemon).staged ≡ f ∷ daemon.staged)))
unfolding stage_file
stage_file_left none daemon = (refl, inl refl)
stage_file_left (some f) daemon = (refl, inr (f, refl))

leave_Move :
    (accepted : Option ℕ) (fd place : ℕ) (daemon d : TelemDaemon)
    → get_elem? daemon.clients place ≡ some fd
    → d.clients ≡ remove_at place daemon.clients
    → (d.staged ≡ daemon.staged) ⊎ ((file : Bytes) × (d.staged ≡ file ∷ daemon.staged))
    → Move accepted (view daemon) (view d)
leave_Move accepted fd place daemon d at gone files =
    leaves fd
      (λ x.
        sym (count-remove_at x place fd daemon.clients at)
        ∙ count_head x fd (remove_at place daemon.clients)
        ∙ ap (λ c. count x (fd ∷ []) + count x c) (sym gone))
      files

pub handle_client-Move :
    (accepted : Option ℕ) (stored_id : Option Bytes) (i place fd : ℕ) (stream : List Received)
    (daemon d : TelemDaemon) (b : Bool)
    → get_elem? daemon.clients place ≡ some fd
    → handle_client stored_id i place stream daemon ≡ done (b, d)
    → Move accepted (view daemon) (view d)
unfolding handle_client
handle_client-Move accepted stored_id i place fd stream daemon d b at e =
    let ((processed, file), received, later) =
      >>=-eq-done (receive_record (machine_id daemon.machine_id_override stored_id) stream) _ e in
    let (m, ended, last) =
      >>=-eq-done (terminate_client i place (stage_file file daemon)) _ later in
    let same : m ≡ d = cc in
    let (gone, kept) = terminate_client_left i place (stage_file file daemon) m ended in
    let (clients, files) = stage_file_left file daemon in
    let left : Move accepted (view daemon) (view m) =
      leave_Move accepted fd place daemon m at (gone ∙ ap (remove_at place) clients)
        (elim files [ inl f ↦ inl (kept ∙ f) | inr (g, f) ↦ inr (g, kept ∙ f) ]) in
    rw same at left
