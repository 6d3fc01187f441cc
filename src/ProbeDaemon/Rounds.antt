-- ===== src/ProbeDaemon/Rounds.antt =====
-- The states of the main loop of the probe daemon, and what each round leads to.
use mathlib.Core.Path.{subst}
use telemetrics_client.Base.{
  ℕ, ◌+◌, ◌≤◌, ◌<◌, ◌≡◌, ◌≢◌, ◌⊎◌, inl, inr, refl, ap, Bool, true, ◌&&◌, List, [], ◌∷◌, some, leb,
  arith, Bool-cases,
}
use telemetrics_client.Base.Run.{done, >>=-eq-done}
use telemetrics_client.Common.{tm_daemon_exit_time}
use telemetrics_client.ProbeDaemon.{TelemDaemon, remove_client}
use telemetrics_client.ProbeDaemon.Handling.{Stuck, AreUnreadable, TurnServes}
use telemetrics_client.ProbeDaemon.Loop.{
  Signal, Events, Turn, goes_on, breaks, stops, fails, waits, start,
}
use telemetrics_client.ProbeDaemon.Main.{
  MainState, Refresh, PollReturn, poll_fails, reports, times_out, Round, runs_on, exits, dies,
  blocked, tm_refresh_rate, begin, refreshed, clear_clients, clean_exit, after_pass, with_stored_id,
  main_round, IsPossible, Reached, begins, rounds,
}
use telemetrics_client.ProbeDaemon.Passes.{serve_pass-IsServing}
use telemetrics_client.ProbeDaemon.Signals.{IsTerminated, HasFailed, HasCause, serve_pass-HasCause}
use telemetrics_client.ProbeDaemon.Serving.{IsServing, start-IsServing}

clear_clients_clears :
    (cs : List ℕ) (daemon : TelemDaemon)
    → daemon.clients ≡ cs
    → (clear_clients cs daemon).clients ≡ []
unfolding clear_clients remove_client
clear_clients_clears [] daemon e = e
clear_clients_clears (c ∷ cs) daemon e =
    clear_clients_clears cs (remove_client 0 daemon) (rw e refl)

clean_exit_clears : (daemon : TelemDaemon) → (clean_exit daemon).clients ≡ []
unfolding clean_exit
clean_exit_clears daemon = clear_clients_clears daemon.clients daemon refl

refreshed_daemon : (r : Refresh) (s : MainState) → (refreshed r s).daemon ≡ s.daemon
unfolding refreshed
refreshed_daemon r s = elim (Bool-cases (leb (s.last_refresh_time + tm_refresh_rate) r.now)) [
  | inl due ↦ rw due refl
  | inr early ↦ rw early refl
]

refreshed_recent :
    (r : Refresh) (s : MainState)
    → r.now ≤ r.later
    → r.now < (refreshed r s).last_refresh_time + tm_refresh_rate
unfolding refreshed
refreshed_recent r s h = elim (Bool-cases (leb (s.last_refresh_time + tm_refresh_rate) r.now)) [
  | inl due ↦ rw due (omega (arith, h))
  | inr early ↦ rw early (ground (arith, early))
]

-- Why a round ends the process.
abbrev pub IsDue : Bool → PollReturn → MainState → Type 0
IsDue recycling poll_fails s = Unit
IsDue recycling (reports reported events signals) s = IsTerminated signals
IsDue recycling (times_out now) s =
    (recycling ≡ true) × (s.daemon.last_record_received + tm_daemon_exit_time ≤ now)

-- Why a round ends the process at once, with exit(EXIT_FAILURE).
abbrev pub IsFatal : PollReturn → Type 0
IsFatal poll_fails = ¬ Unit
IsFatal (reports reported events signals) = HasFailed signals
IsFatal (times_out now) = ¬ Unit

-- What a round leads to.
abbrev pub AfterRound : ℕ → ℕ → Bool → PollReturn → Refresh → MainState → Round → Type 0
AfterRound sigfd sockfd recycling result r s (runs_on s') =
    IsServing sigfd sockfd s'.daemon × (r.now < s'.last_refresh_time + tm_refresh_rate)
AfterRound sigfd sockfd recycling result r s (exits d) = (d.clients ≡ []) × IsDue recycling result s
AfterRound sigfd sockfd recycling result r s (dies d) = IsServing sigfd sockfd d × IsFatal result
AfterRound sigfd sockfd recycling result r s (blocked d) = IsServing sigfd sockfd d

-- A client of the report sends what receive_record cannot take.
abbrev pub IsUnreadable : PollReturn → Type 0
IsUnreadable poll_fails = ¬ Unit
IsUnreadable (reports reported events signals) = AreUnreadable events
IsUnreadable (times_out now) = ¬ Unit

-- The daemon goes into the next round with its tables.
next_round :
    (sigfd sockfd : ℕ) (r : Refresh) (s : MainState)
    → r.now ≤ r.later
    → IsServing sigfd sockfd s.daemon
    → IsServing sigfd sockfd (refreshed r s).daemon
      × (r.now < (refreshed r s).last_refresh_time + tm_refresh_rate)
next_round sigfd sockfd r s clock i = (rw (refreshed_daemon r s) i, refreshed_recent r s clock)

after_pass_leads :
    (sigfd sockfd : ℕ) (recycling : Bool) (reported : List Bool) (events : Events)
    (signals : List Signal) (r : Refresh) (s : MainState) (t : Turn)
    → r.now ≤ r.later
    → TurnServes sigfd sockfd t
    → HasCause t signals
    → (round : Round) × (after_pass r s (some t) ≡ some round)
      × AfterRound sigfd sockfd recycling (reports reported events signals) r s round
unfolding after_pass
after_pass_leads sigfd sockfd recycling reported events signals r s (goes_on ss d) clock i ended =
    (_, refl, next_round sigfd sockfd r (record s { daemon = d }) clock i)
after_pass_leads sigfd sockfd recycling reported events signals r s (breaks ss d) clock i ended =
    (_, refl, next_round sigfd sockfd r (record s { daemon = d }) clock i)
after_pass_leads sigfd sockfd recycling reported events signals r s (stops d) clock i ended =
    (_, refl, (clean_exit_clears d, ended))
after_pass_leads sigfd sockfd recycling reported events signals r s (fails d) clock i ended =
    (_, refl, (i, ended))
after_pass_leads sigfd sockfd recycling reported events signals r s (waits d) clock i ended =
    (_, refl, i)

main_round_leads :
    (sigfd sockfd : ℕ) (recycling : Bool) (result : PollReturn) (r : Refresh) (s : MainState)
    → r.now ≤ r.later
    → IsServing sigfd sockfd s.daemon
    → IsPossible sigfd sockfd result s
    → ((round : Round) × (main_round sockfd recycling result r s ≡ done (some round))
        × AfterRound sigfd sockfd recycling result r s round)
      ⊎ (Stuck (main_round sockfd recycling result r s) × IsUnreadable result)
unfolding main_round with_stored_id
main_round_leads sigfd sockfd recycling poll_fails r s clock i p =
    inl (_, refl, (clean_exit_clears s.daemon, tt))
main_round_leads sigfd sockfd recycling (reports reported events signals) r s clock i p =
    elim (serve_pass-IsServing sigfd sockfd reported (with_stored_id s events) signals s.daemon i
      (record { fresh = p.fresh })) [
        | inr (stuck, unreadable) ↦
            inr (elim stuck [ inl e ↦ inl (rw e refl) | inr e ↦ inr (rw e refl) ], unreadable)
        | inl (t, passed, serves) ↦
            let (round, e, leads) =
              after_pass_leads sigfd sockfd recycling reported events signals r s t clock serves (
                serve_pass-HasCause sockfd reported (with_stored_id s events) signals s.daemon t
                  passed) in
            inl (round, rw passed (ap done e), leads)
      ]
main_round_leads sigfd sockfd recycling (times_out now) r s clock i p =
    let idle = s.daemon.last_record_received + tm_daemon_exit_time in
    elim (Bool-cases (recycling && leb idle now)) [
      | inl due ↦ inl (
        exits (clean_exit s.daemon),
        rw due refl,
        (clean_exit_clears s.daemon, (ground (arith, due), ground (arith, due))),
      )
      | inr early ↦
          inl (runs_on (refreshed r s), rw early refl, next_round sigfd sockfd r s clock i)
    ]

Reached-IsServing :
    (sigfd sockfd : ℕ) (recycling : Bool) {s : MainState}
    → sigfd ≢ sockfd
    → Reached sigfd sockfd recycling s
    → IsServing sigfd sockfd s.daemon
unfolding begin
Reached-IsServing sigfd sockfd recycling {s} apart (begins now override r file e) =
    let (d, started, i) = start-IsServing now sigfd sockfd override apart in
    let (d', started', last) = >>=-eq-done (start now sigfd sockfd override) _ e in
    let same : d ≡ s.daemon = cc in subst (IsServing sigfd sockfd) (same) i
Reached-IsServing sigfd sockfd recycling {s = s'} apart (rounds {s} result r h clock p e) =
    let before = Reached-IsServing sigfd sockfd recycling apart h in
    elim (main_round_leads sigfd sockfd recycling result r s clock before p) [
      | inl (round, leads_to, leads) ↦
          let same : round ≡ runs_on s' = cc in
          (subst (AfterRound sigfd sockfd recycling result r s) (same) leads).0
      | inr (stuck, _) ↦ elim stuck [ inl ends ↦ absurd cc | inr ends ↦ absurd cc ]
    ]

-- From a start with two descriptors that differ, in every state that the loop reaches, where accept
-- gives only descriptors that are not in use, and the clock does not go back while the machine id is
-- updated, every return of poll leads to one of five. The next round begins, with the tables in step
-- and the last refresh less than an hour before. Or the loop is left for its clean-up, after which no
-- client is left, since poll failed, or SIGTERM or SIGINT was read, or nothing was reported, recycling
-- is on and no record came for five minutes. Or the process exits with EXIT_FAILURE and without
-- clean-up, its tables in step, since a read of the signalfd failed or was short, or SIGHUP was read
-- and the configuration could not be loaded. Or the daemon waits for a signal, with its tables in
-- step. Or an assertion fails or an object is left, and then there is a client whose bytes make
-- receive_record do so.
pub main_round-Reached :
    (sigfd sockfd : ℕ) (recycling : Bool) (result : PollReturn) (r : Refresh) (s : MainState)
    → sigfd ≢ sockfd
    → Reached sigfd sockfd recycling s
    → r.now ≤ r.later
    → IsPossible sigfd sockfd result s
    → ((round : Round) × (main_round sockfd recycling result r s ≡ done (some round))
        × AfterRound sigfd sockfd recycling result r s round)
      ⊎ (Stuck (main_round sockfd recycling result r s) × IsUnreadable result)
main_round-Reached sigfd sockfd recycling result r s apart h clock p =
    main_round_leads sigfd sockfd recycling result r s clock
      (Reached-IsServing sigfd sockfd recycling apart h) p
