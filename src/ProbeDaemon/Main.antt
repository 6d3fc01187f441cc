-- ===== src/ProbeDaemon/Main.antt =====
-- src/probe.c: the loop of `main` around the passes, and what it does at its end.
use telemetrics_client.Base.{
  ℕ, ◌+◌, ◌*◌, ◌≤◌, ◌≡◌, ◌&&◌, Bool, List, [], ◌∷◌, Option, none, some, leb, if◌then◌else◌,
}
use telemetrics_client.Base.Bytes.{Bytes}
use telemetrics_client.Base.Run.{Run, done, ◌>>=◌}
use telemetrics_client.Common.{tm_daemon_exit_time}
use telemetrics_client.ProbeDaemon.{TelemDaemon, remove_client}
use telemetrics_client.ProbeDaemon.Handling.{ArePossible}
use telemetrics_client.ProbeDaemon.Loop.{
  Signal, Events, Turn, goes_on, breaks, stops, fails, waits, serve_pass, start,
}
use telemetrics_client.ProbeDaemon.MachineId.{IdStat, IdFile, get_machine_id, update_machine_id}

abbrev pub tm_refresh_rate : ℕ
tm_refresh_rate = 1 * 60 * 60

-- Only this daemon writes the file of the machine id.
pub record MainState : Type 0 where
  pub daemon : TelemDaemon
  pub machine_id_file : Option Bytes
  pub last_refresh_time : ℕ

-- What update_machine_id meets, and the time before and after it.
pub record Refresh : Type 0 where
  pub now : ℕ
  pub stat : IdStat
  pub random_id : Option Bytes
  pub file : IdFile
  pub later : ℕ

-- A return of poll: with an error, with events, or without any at some time.
pub data PollReturn : Type 0 where
  poll_fails : PollReturn
  reports : List Bool → Events → List Signal → PollReturn
  times_out : ℕ → PollReturn

-- What a round leads to: the next, the end of the process with or without `clean_exit`, or a read of the signalfd that waits.
pub data Round : Type 0 where
  runs_on : MainState → Round
  exits : TelemDaemon → Round
  dies : TelemDaemon → Round
  blocked : TelemDaemon → Round

-- The file after a write, if there was one.
unfoldable pub rewritten : Option Bytes → Option Bytes → Option Bytes
rewritten none file = file
rewritten (some new_id) file = some new_id

unfoldable pub refresh_machine_id : Refresh → Option Bytes → Option Bytes
unfolding update_machine_id rewritten
refresh_machine_id r file = rewritten (update_machine_id r.stat r.now r.random_id r.file).1 file

unfoldable pub begin : ℕ → ℕ → ℕ → Option Bytes → Refresh → Option Bytes → Run MainState
unfolding start refresh_machine_id
begin now sigfd sockfd override r file = do
  daemon ← start now sigfd sockfd override
  done (record {
    daemon = daemon;
    machine_id_file = refresh_machine_id r file;
    last_refresh_time = r.later;
  })

-- At the end of a round.
unfoldable pub refreshed : Refresh → MainState → MainState
unfolding refresh_machine_id
refreshed r s =
    if leb (s.last_refresh_time + tm_refresh_rate) r.now
    then record s {
      machine_id_file = refresh_machine_id r s.machine_id_file;
      last_refresh_time = r.later;
    }
    else s

-- The loop over LIST_FIRST.
unfoldable pub clear_clients : List ℕ → TelemDaemon → TelemDaemon
unfolding remove_client
clear_clients [] daemon = daemon
clear_clients (c ∷ cs) daemon = clear_clients cs (remove_client 0 daemon)

unfoldable pub clean_exit : TelemDaemon → TelemDaemon
unfolding clear_clients
clean_exit daemon = record (clear_clients daemon.clients daemon) {
  pollfds = [];
  current_alloc = 0;
  machine_id_override = none;
}

unfoldable pub after_pass : Refresh → MainState → Option Turn → Option Round
unfolding refreshed clean_exit
after_pass r s none = none
after_pass r s (some (goes_on signals d)) = some (runs_on (refreshed r (record s { daemon = d })))
after_pass r s (some (breaks signals d)) = some (runs_on (refreshed r (record s { daemon = d })))
after_pass r s (some (stops d)) = some (exits (clean_exit d))
after_pass r s (some (fails d)) = some (dies d)
after_pass r s (some (waits d)) = some (blocked d)

-- handle_client reads the machine id from the file as it is.
unfoldable pub with_stored_id : MainState → Events → Events
with_stored_id s events = record events { stored_id = get_machine_id s.machine_id_file }

-- none is a pass that is out of fuel.
unfoldable pub main_round : ℕ → Bool → PollReturn → Refresh → MainState → Run (Option Round)
unfolding after_pass with_stored_id
main_round sockfd recycling poll_fails r s = done (some (exits (clean_exit s.daemon)))
main_round sockfd recycling (reports reported events signals) r s = do
  turn ← serve_pass sockfd reported (with_stored_id s events) signals s.daemon
  done (after_pass r s turn)
main_round sockfd recycling (times_out now) r s =
    if recycling && leb (s.daemon.last_record_received + tm_daemon_exit_time) now
    then done (some (exits (clean_exit s.daemon)))
    else done (some (runs_on (refreshed r s)))

-- A report can be that of descriptors that are new.
abbrev pub IsPossible : ℕ → ℕ → PollReturn → MainState → Type 0
IsPossible sigfd sockfd (reports reported events signals) s =
    ArePossible sigfd sockfd events s.daemon
IsPossible sigfd sockfd result s = Unit

-- The states that the loop comes through, where the clock does not go back while the machine id is
-- updated.
pub data Reached (sigfd sockfd : ℕ) (recycling : Bool) : MainState → Type 0 where
  begins :
      {s : MainState} (now : ℕ) (override : Option Bytes) (r : Refresh) (file : Option Bytes)
      → begin now sigfd sockfd override r file ≡ done s
      → Reached sigfd sockfd recycling s
  rounds :
      {s s' : MainState} (result : PollReturn) (r : Refresh)
      → Reached sigfd sockfd recycling s
      → r.now ≤ r.later
      → IsPossible sigfd sockfd result s
      → main_round sockfd recycling result r s ≡ done (some (runs_on s'))
      → Reached sigfd sockfd recycling s'
