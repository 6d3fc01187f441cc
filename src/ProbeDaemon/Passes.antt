-- ===== src/ProbeDaemon/Passes.antt =====
-- That a pass of the main loop over the descriptors comes to its end and leaves the tables in step.
use telemetrics_client.Base.{
  ℕ, zero, suc, ◌+◌, ◌≤◌, ◌≡◌, refl, ap, ◌∙◌, inl, inr, ◌⊎◌, Bool, true, false, List, [], ◌∷◌,
  Option, none, some, length, get_elem?, arith, Bool-cases, Option-cases,
}
use telemetrics_client.Base.Run.{Run, done, >>=-eq-done}
use telemetrics_client.ProbeDaemon.{Polled, TelemDaemon}
use telemetrics_client.ProbeDaemon.Loop.{
  Signal, hang_up, bad_read, terminate, broken_pipe, Events, Turn, goes_on, breaks, stops, fails,
  waits, is_signalled, take_signal, check_signal, serve_turn, serve_next, serve_from, set_revents,
  poll, serve_pass,
}
use telemetrics_client.ProbeDaemon.Serving.{fds, IsServing, IsFresh}
use telemetrics_client.ProbeDaemon.Handling.{
  Stuck, AreUnreadable, TurnLeads, TurnServes, HasFuel, AllFresh, TurnReady, ArePossible,
}
use telemetrics_client.ProbeDaemon.Turns.{serve_entry_serves}

-- The read of the signalfd changes no table.
pub check_signal_cases :
    (signals : List Signal) (daemon : TelemDaemon)
    → ((rest : List Signal) × (check_signal signals daemon ≡ goes_on rest daemon))
      ⊎ ((check_signal signals daemon ≡ stops daemon)
          ⊎ ((check_signal signals daemon ≡ fails daemon)
              ⊎ (check_signal signals daemon ≡ waits daemon)))
unfolding check_signal take_signal
check_signal_cases signals daemon = elim (Bool-cases (is_signalled daemon.pollfds)) [
  | inr quiet ↦ rw quiet (inl (signals, refl))
  | inl signalled ↦ rw signalled (taken signals)
]
  where
    taken :
        (ss : List Signal)
        → ((rest : List Signal) × (take_signal ss daemon ≡ goes_on rest daemon))
          ⊎ ((take_signal ss daemon ≡ stops daemon)
              ⊎ ((take_signal ss daemon ≡ fails daemon) ⊎ (take_signal ss daemon ≡ waits daemon)))
    taken [] = inr (inr (inr refl))
    taken (bad_read ∷ ss) = inr (inr (inl refl))
    taken (terminate ∷ ss) = inr (inl refl)
    taken (hang_up true ∷ ss) = inl (ss, refl)
    taken (hang_up false ∷ ss) = inr (inr (inl refl))
    taken (broken_pipe ∷ ss) = inl (ss, refl)

pub serve_from_over :
    (fuel sockfd i : ℕ) (events : Events) (signals : List Signal) (daemon : TelemDaemon)
    → get_elem? daemon.pollfds i ≡ none
    → serve_from (suc fuel) sockfd events i signals daemon ≡ done (some (goes_on signals daemon))
unfolding serve_from
serve_from_over fuel sockfd i events signals daemon e = rw (e, serve_from) refl

serve_from_next :
    (fuel sockfd i : ℕ) (events : Events) (signals : List Signal) (daemon : TelemDaemon)
    (p : Polled) (t : Turn)
    → get_elem? daemon.pollfds i ≡ some p
    → serve_turn sockfd events i p (check_signal signals daemon) ≡ done t
    → serve_from (suc fuel) sockfd events i signals daemon
      ≡ serve_next (λ s d. serve_from fuel sockfd events (i + 1) s d) t
unfolding serve_from
serve_from_next fuel sockfd i events signals daemon p t e f = rw (e, serve_from, f) refl

-- What was done when the loop has returned.
pub serve_from_turn :
    (fuel sockfd i : ℕ) (events : Events) (signals : List Signal) (daemon : TelemDaemon)
    (p : Polled) (t : Turn)
    → get_elem? daemon.pollfds i ≡ some p
    → serve_from (suc fuel) sockfd events i signals daemon ≡ done (some t)
    → (u : Turn) × (serve_turn sockfd events i p (check_signal signals daemon) ≡ done u)
      × (serve_next (λ s d. serve_from fuel sockfd events (i + 1) s d) u ≡ done (some t))
unfolding serve_from
serve_from_turn fuel sockfd i events signals daemon p t here e =
    >>=-eq-done (serve_turn sockfd events i p (check_signal signals daemon)) _
      (rw (here, serve_from) at e)

-- What a loop does from some place on: it ends with the tables in step, or meets an unreadable client.
abbrev pub Serves : ℕ → ℕ → Events → Run (Option Turn) → Type 0
Serves sigfd sockfd events result =
    ((t : Turn) × (result ≡ done (some t)) × TurnServes sigfd sockfd t)
    ⊎ (Stuck result × AreUnreadable events)

serve_next-Serves :
    (fuel sigfd sockfd i : ℕ) (events : Events)
    (next : List Signal → TelemDaemon → Run (Option Turn)) (t : Turn)
    → TurnServes sigfd sockfd t
    → TurnReady sigfd sockfd events.accepted fuel i t
    → ((signals : List Signal) (d : TelemDaemon)
        → IsServing sigfd sockfd d
        → (i + 1 ≤ 1 → AllFresh sigfd sockfd events.accepted d)
        → HasFuel fuel (i + 1) (length d.pollfds)
        → Serves sigfd sockfd events (next signals d))
    → Serves sigfd sockfd events (serve_next next t)
unfolding serve_next
serve_next-Serves fuel sigfd sockfd i events next (goes_on signals d) s ready ih =
    ih signals d s ready.1 ready.0
serve_next-Serves fuel sigfd sockfd i events next (breaks signals d) s ready ih = inl (_, refl, s)
serve_next-Serves fuel sigfd sockfd i events next (stops d) s ready ih = inl (_, refl, s)
serve_next-Serves fuel sigfd sockfd i events next (fails d) s ready ih = inl (_, refl, s)
serve_next-Serves fuel sigfd sockfd i events next (waits d) s ready ih = inl (_, refl, s)

serve_turn_serves :
    (sigfd sockfd fuel i : ℕ) (events : Events) (p : Polled) (signals : List Signal)
    (daemon : TelemDaemon)
    → IsServing sigfd sockfd daemon
    → (i ≤ 1 → AllFresh sigfd sockfd events.accepted daemon)
    → HasFuel (suc fuel) i (length daemon.pollfds)
    → get_elem? daemon.pollfds i ≡ some p
    → TurnLeads sigfd sockfd events fuel i
        (serve_turn sockfd events i p (check_signal signals daemon))
unfolding serve_turn
serve_turn_serves sigfd sockfd fuel i events p signals daemon s fresh h at =
    elim (check_signal_cases signals daemon) [
      | inl (rest, e) ↦
          rw (e, serve_turn)
            (serve_entry_serves sigfd sockfd fuel i events p rest daemon s fresh h at)
      | inr (inl e) ↦ rw (e, serve_turn) (inl (stops daemon, refl, s, tt))
      | inr (inr (inl e)) ↦ rw (e, serve_turn) (inl (fails daemon, refl, s, tt))
      | inr (inr (inr e)) ↦ rw (e, serve_turn) (inl (waits daemon, refl, s, tt))
    ]

-- From any place of the array on, the loop over the descriptors comes to an end with the tables in
-- step.
serve_from-Serves :
    (fuel sigfd sockfd i : ℕ) (events : Events) (signals : List Signal) (daemon : TelemDaemon)
    → IsServing sigfd sockfd daemon
    → (i ≤ 1 → (fd : ℕ) → events.accepted ≡ some fd → IsFresh fd sigfd sockfd daemon)
    → HasFuel fuel i (length daemon.pollfds)
    → Serves sigfd sockfd events (serve_from fuel sockfd events i signals daemon)
unfolding serve_from
serve_from-Serves zero sigfd sockfd i events signals daemon s fresh h = absurd (omega (arith, h.0))
serve_from-Serves (suc fuel) sigfd sockfd i events signals daemon s fresh h =
    elim (Option-cases (get_elem? daemon.pollfds i)) [
      | inl over ↦
          inl (goes_on signals daemon, serve_from_over fuel sockfd i events signals daemon over, s)
      | inr (p, at) ↦
          elim (serve_turn_serves sigfd sockfd fuel i events p signals daemon s fresh h at) [
            | inr (stuck, unreadable) ↦ inr (
              elim stuck [
                | inl e ↦ inl (rw (at, serve_from, e) refl)
                | inr e ↦ inr (rw (at, serve_from, e) refl)
              ],
              unreadable,
            )
            | inl (t, e, serves, ready) ↦
                rw (serve_from_next fuel sockfd i events signals daemon p t at e) (
                  serve_next-Serves fuel sigfd sockfd i events
                    (λ ss d. serve_from fuel sockfd events (i + 1) ss d) t serves ready
                    (λ rest d is allowed enough.
                      serve_from-Serves fuel sigfd sockfd (i + 1) events rest d is allowed enough))
          ]
    ]

fds-set_revents : (reported : List Bool) (ps : List Polled) → fds (set_revents reported ps) ≡ fds ps
unfolding set_revents
fds-set_revents reported [] = refl
fds-set_revents [] (p ∷ ps) = ap (◌∷◌ p.fd) (fds-set_revents [] ps)
fds-set_revents (b ∷ bs) (p ∷ ps) = ap (◌∷◌ p.fd) (fds-set_revents bs ps)

length-set_revents :
    (reported : List Bool) (ps : List Polled) → length (set_revents reported ps) ≡ length ps
unfolding set_revents
length-set_revents reported [] = refl
length-set_revents [] (p ∷ ps) = ap suc (length-set_revents [] ps)
length-set_revents (b ∷ bs) (p ∷ ps) = ap suc (length-set_revents bs ps)

-- When the array and the client list hold the same descriptors behind the signalfd and the listening
-- socket, each once, and an accepted descriptor is new, a pass over the descriptors ends, with the
-- tables in step again and the array within its memory, whether it goes on, breaks, stops, fails or
-- waits for a signal; or a client's bytes make receive_record fail its assertion or leave its buffer.
pub serve_pass-IsServing :
    (sigfd sockfd : ℕ) (reported : List Bool) (events : Events) (signals : List Signal)
    (daemon : TelemDaemon)
    → IsServing sigfd sockfd daemon
    → ArePossible sigfd sockfd events daemon
    → Serves sigfd sockfd events (serve_pass sockfd reported events signals daemon)
unfolding serve_pass poll
serve_pass-IsServing sigfd sockfd reported events signals daemon s possible =
    let size = length-set_revents reported daemon.pollfds in
    serve_from-Serves (length daemon.pollfds + 2) sigfd sockfd 0 events signals
      (poll reported daemon)
      (record {
        connected = s.connected;
        polled = fds-set_revents reported daemon.pollfds ∙ s.polled;
        same = s.same;
        once = s.once;
        allocated = omega (arith, size, s.allocated);
      })
      (λ first. possible.fresh) (ground (arith, size))
