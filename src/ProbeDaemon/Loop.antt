-- ===== src/ProbeDaemon/Loop.antt =====
-- src/probe.c: the loop of `main` that accepts and serves clients.
use telemetrics_client.Base.{
  ℕ, zero, suc, ◌+◌, Bool, false, List, [], ◌∷◌, Option, none, some, ◌==◌, if◌then◌else◌, length,
  get_elem?,
}
use telemetrics_client.Base.Bytes.{Bytes}
use telemetrics_client.Base.Run.{Run, done, fault, ◌>>=◌}
use telemetrics_client.ProbeDaemon.{
  Polled, TelemDaemon, initialize_probe_daemon, add_client, add_pollfd, find_client,
}
use telemetrics_client.ProbeDaemon.Receive.{Received, handle_client}

-- What a read of the signalfd gives: a signal of its mask, SIGHUP with whether reload_config can parse
-- the file (else it exits), SIGPIPE as `broken_pipe`; or the read fails or is short.
pub data Signal : Type 0 where
  hang_up : Bool → Signal
  bad_read : Signal
  terminate : Signal
  broken_pipe : Signal

-- What one pass over the descriptors meets: the result of accept and fcntl, none for a failure of
-- either, what each client sends, the stored machine id, and the time at which a client has been served.
pub record Events : Type 0 where
  pub accepted : Option ℕ
  pub received : ℕ → List Received
  pub stored_id : Option Bytes
  pub served_at : ℕ

-- How a turn of the loop over the descriptors ends: with the next descriptor, at a `break`, at
-- `clean_exit`, or at exit(EXIT_FAILURE) around the read of the signalfd; or the read of the signalfd, which is blocking, waits for a signal.
pub data Turn : Type 0 where
  goes_on : List Signal → TelemDaemon → Turn
  breaks : List Signal → TelemDaemon → Turn
  stops : TelemDaemon → Turn
  fails : TelemDaemon → Turn
  waits : TelemDaemon → Turn

unfoldable pub accept_client : Option ℕ → List Signal → TelemDaemon → Run Turn
accept_client none signals daemon = done (breaks signals daemon)
accept_client (some fd) signals daemon =
    add_pollfd fd (add_client fd daemon) >>= (λ d. done (goes_on signals d))

-- With no client of the descriptor, `current_client` is null or was freed.
unfoldable pub serve_client : Events → ℕ → ℕ → List Signal → TelemDaemon → Run Turn
serve_client events i fd signals daemon = elim (find_client fd daemon.clients) [
  | none ↦ fault
  | some place ↦
      handle_client events.stored_id i place (events.received fd) daemon
      >>= (λ (_, d). done (goes_on signals (record d { last_record_received = events.served_at })))
]

unfoldable pub serve_entry : ℕ → Events → ℕ → Polled → List Signal → TelemDaemon → Run Turn
unfolding accept_client serve_client
serve_entry sockfd events i polled signals daemon =
    if polled.revents
    then if polled.fd == sockfd
      then accept_client events.accepted signals daemon
      else if i == 0
      then done (goes_on signals daemon)
      else serve_client events i polled.fd signals daemon
    else done (goes_on signals daemon)

-- Whether poll reported the signalfd, the first descriptor.
unfoldable pub is_signalled : List Polled → Bool
is_signalled [] = false
is_signalled (p ∷ ps) = p.revents

-- The read of the signalfd; a failing one ends the process, and so does a SIGHUP where the
-- configuration cannot be reloaded.
unfoldable pub take_signal : List Signal → TelemDaemon → Turn
take_signal [] daemon = waits daemon
take_signal (terminate ∷ signals) daemon = stops daemon
take_signal (bad_read ∷ signals) daemon = fails daemon
take_signal (hang_up loads ∷ signals) daemon =
    if loads then goes_on signals daemon else fails daemon
take_signal (broken_pipe ∷ signals) daemon = goes_on signals daemon

unfoldable pub check_signal : List Signal → TelemDaemon → Turn
unfolding is_signalled take_signal
check_signal signals daemon =
    if is_signalled daemon.pollfds then take_signal signals daemon else goes_on signals daemon

unfoldable pub serve_turn : ℕ → Events → ℕ → Polled → Turn → Run Turn
unfolding serve_entry
serve_turn sockfd events i polled (goes_on signals daemon) =
    serve_entry sockfd events i polled signals daemon
serve_turn sockfd events i polled turn = done turn

-- The next turn of the loop, if this one did not leave it.
unfoldable pub serve_next :
    (List Signal → TelemDaemon → Run (Option Turn)) → Turn → Run (Option Turn)
serve_next next (goes_on signals daemon) = next signals daemon
serve_next next turn = done (some turn)

-- The loop over the descriptors from the i-th on; none is out of fuel.
unfoldable pub serve_from : ℕ → ℕ → Events → ℕ → List Signal → TelemDaemon → Run (Option Turn)
unfolding serve_turn check_signal serve_next
serve_from zero sockfd events i signals daemon = done none
serve_from (suc fuel) sockfd events i signals daemon = elim (get_elem? daemon.pollfds i) [
  | none ↦ done (some (goes_on signals daemon))
  | some polled ↦
      serve_turn sockfd events i polled (check_signal signals daemon)
      >>= serve_next (λ s d. serve_from fuel sockfd events (i + 1) s d)
]

-- What poll writes into the array.
unfoldable pub set_revents : List Bool → List Polled → List Polled
set_revents reported [] = []
set_revents [] (p ∷ ps) = record p { revents = false } ∷ set_revents [] ps
set_revents (b ∷ bs) (p ∷ ps) = record p { revents = b } ∷ set_revents bs ps

unfoldable pub poll : List Bool → TelemDaemon → TelemDaemon
unfolding set_revents
poll reported daemon = record daemon { pollfds = set_revents reported daemon.pollfds }

-- A round of the main loop in which poll reports events.
unfoldable pub serve_pass : ℕ → List Bool → Events → List Signal → TelemDaemon → Run (Option Turn)
unfolding serve_from poll
serve_pass sockfd reported events signals daemon =
    serve_from (length daemon.pollfds + 2) sockfd events 0 signals (poll reported daemon)

-- Before the loop, at the time `now`: the signalfd and the listening socket are the first descriptors.
unfoldable pub start : ℕ → ℕ → ℕ → Option Bytes → Run TelemDaemon
start now sigfd sockfd override = add_pollfd sigfd initialize_probe_daemon >>= (λ d.
    add_pollfd sockfd d
    >>= (λ e. done (record e { machine_id_override = override; last_record_received = now })))
