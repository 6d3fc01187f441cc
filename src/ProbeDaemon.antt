-- ===== src/ProbeDaemon.antt =====
-- The probe daemon: src/telemdaemon.c keeps the descriptors and the clients and receives their
-- records (Receive), src/probe.c waits for them and serves them (Loop). Allocation succeeds.
pub mod Receive
pub mod Loop
pub mod Counts
pub mod Serving
pub mod Handling
pub mod Turns
pub mod Passes
pub mod Signals
pub mod Main
pub mod Rounds
pub mod Moves
pub mod Refinement
pub mod MachineId
pub mod Identity
pub mod Streams
pub mod EndToEnd
use telemetrics_client.Base.{
  ℕ, zero, suc, ◌+◌, ◌*◌, Bool, true, false, List, [], ◌∷◌, ◌++◌, Option, none, some, ltb, leb,
  ◌==◌, if◌then◌else◌, length,
}
use telemetrics_client.Base.Bytes.{Bytes}
use telemetrics_client.Base.Run.{Run, done, exit, fault}
use telemetrics_client.Util.{reallocate}

-- struct pollfd; `revents` is that some event was reported.
pub record Polled : Type 0 where
  pub fd : ℕ
  pub revents : Bool

-- `nfds` is the length of `pollfds`, and a `current_alloc` of 0 is a null `pollfds`. A client is given
-- by its descriptor: its buffer lives during one handle_client. `staged` are the files that were
-- staged, the newest first. `last_record_received` is the variable of main.
pub record TelemDaemon : Type 0 where
  pub pollfds : List Polled
  pub current_alloc : ℕ
  pub clients : List ℕ
  pub machine_id_override : Option Bytes
  pub staged : List Bytes
  pub last_record_received : ℕ

unfoldable pub initialize_probe_daemon : TelemDaemon
initialize_probe_daemon = record {
  pollfds = [];
  current_alloc = 0;
  clients = [];
  machine_id_override = none;
  staged = [];
  last_record_received = 0;
}

-- LIST_INSERT_HEAD
unfoldable pub add_client : ℕ → TelemDaemon → TelemDaemon
add_client fd daemon = record daemon { clients = fd ∷ daemon.clients }

-- The list or the array without its entry at this place.
abbrev pub remove_at {ℓ} : {A : Type ℓ} → ℕ → List A → List A
remove_at i [] = []
remove_at zero (x ∷ xs) = xs
remove_at (suc i) (x ∷ xs) = x ∷ remove_at i xs

-- LIST_REMOVE of the client at this place of the list.
unfoldable pub remove_client : ℕ → TelemDaemon → TelemDaemon
remove_client place daemon = record daemon { clients = remove_at place daemon.clients }

unfoldable pub is_client_list_empty : TelemDaemon → Bool
is_client_list_empty daemon = length daemon.clients == 0

-- sizeof(struct pollfd)
abbrev pub pollfd_size : ℕ
pollfd_size = 8

-- The room in bytes before the new entry is written.
unfoldable pub pollfds_room : TelemDaemon → ℕ
pollfds_room daemon =
    if daemon.current_alloc == 0
    then pollfd_size
    else reallocate daemon.current_alloc ((length daemon.pollfds + 1) * pollfd_size)

unfoldable pub add_pollfd : ℕ → TelemDaemon → Run TelemDaemon
unfolding pollfds_room
add_pollfd fd daemon =
    if leb ((length daemon.pollfds + 1) * pollfd_size) (pollfds_room daemon)
    then done (record daemon {
      pollfds = daemon.pollfds ++ record { fd = fd; revents = false } ∷ [];
      current_alloc = pollfds_room daemon;
    })
    else fault

unfoldable pub del_pollfd : ℕ → TelemDaemon → Run TelemDaemon
del_pollfd i daemon =
    if ltb i (length daemon.pollfds)
    then done (record daemon { pollfds = remove_at i daemon.pollfds })
    else exit

-- LIST_FOREACH leaves in `current_client` the last client with the descriptor.
unfoldable pub find_client : ℕ → List ℕ → Option ℕ
find_client fd [] = none
find_client fd (c ∷ cs) = elim (find_client fd cs) [
  | some place ↦ some (suc place)
  | none ↦ if c == fd then some 0 else none
]
