-- ===== src/ProbeDaemon/Signals.antt =====
-- Which signal ends a pass of the main loop.
use mathlib.Core.List.{append_assoc}
use mathlib.Core.Path.{subst}
use telemetrics_client.Base.{
  ℕ, zero, suc, ◌+◌, ◌≡◌, ◌⊎◌, inl, inr, refl, sym, ap, ◌∙◌, Bool, true, false, List, [], ◌∷◌, ◌++◌,
  Option, none, some, ◌==◌, length, get_elem?, Bool-cases, Option-cases, if_cases,
}
use telemetrics_client.Base.Run.{Run, done, fault, >>=-eq-done}
use telemetrics_client.ProbeDaemon.{Polled, TelemDaemon, add_client, add_pollfd, find_client}
use telemetrics_client.ProbeDaemon.Loop.{
  Signal, hang_up, bad_read, terminate, broken_pipe, Events, Turn, goes_on, breaks, stops, fails,
  waits, accept_client, serve_client, serve_entry, is_signalled, take_signal, check_signal,
  serve_turn, serve_next, serve_from, poll, serve_pass,
}
use telemetrics_client.ProbeDaemon.Passes.{serve_from_over, serve_from_turn}
use telemetrics_client.ProbeDaemon.Receive.{handle_client}

-- SIGTERM or SIGINT is among the signals.
abbrev pub IsTerminated : List Signal → Type 0
IsTerminated signals =
    (before : List Signal) × (after : List Signal) × (signals ≡ before ++ terminate ∷ after)

-- A read of the signalfd failed, or reload_config could not parse the file.
abbrev pub HasFailed : List Signal → Type 0
HasFailed signals =
    (before : List Signal) × (x : Signal) × (after : List Signal) × (signals ≡ before ++ x ∷ after)
    × ((x ≡ bad_read) ⊎ (x ≡ hang_up false))

-- A turn that leaves these signals to read.
abbrev Leaves : List Signal → Turn → Type 0
Leaves signals t = (d : TelemDaemon) × ((t ≡ goes_on signals d) ⊎ (t ≡ breaks signals d))

serve_client-Leaves :
    (events : Events) (i fd : ℕ) (signals : List Signal) (daemon : TelemDaemon) (t : Turn)
    → serve_client events i fd signals daemon ≡ done t
    → Leaves signals t
unfolding serve_client
serve_client-Leaves events i fd signals daemon t e =
    elim (Option-cases (find_client fd daemon.clients)) [
      | inl absent ↦ absurd (let broken : fault ≡ done t = rw (absent, serve_client) at e in cc)
      | inr (place, found) ↦
          let ((b, d), handled, last) =
            >>=-eq-done (handle_client events.stored_id i place (events.received fd) daemon) _
              (rw (found, serve_client) at e) in
          let now = record d { last_record_received = events.served_at } in
          let same : goes_on signals now ≡ t = cc in (now, inl (sym same))
    ]

serve_entry-Leaves :
    (sockfd : ℕ) (events : Events) (i : ℕ) (p : Polled) (signals : List Signal)
    (daemon : TelemDaemon) (t : Turn)
    → serve_entry sockfd events i p signals daemon ≡ done t
    → Leaves signals t
unfolding serve_entry accept_client
serve_entry-Leaves sockfd events i p signals daemon t e = elim (if_cases p.revents e) [
  | inr (_, idle) ↦ let same : goes_on signals daemon ≡ t = cc in (daemon, inl (sym same))
  | inl (_, reported) ↦ elim (if_cases (p.fd == sockfd) reported) [
    | inl (_, listens) ↦ accepted events.accepted listens
    | inr (_, client) ↦ elim (if_cases (i == 0) client) [
      | inl (_, idle) ↦ let same : goes_on signals daemon ≡ t = cc in (daemon, inl (sym same))
      | inr (_, serves) ↦ serve_client-Leaves events i p.fd signals daemon t serves
    ]
  ]
]
  where
    accepted : (a : Option ℕ) → accept_client a signals daemon ≡ done t → Leaves signals t
    accepted none f = let same : breaks signals daemon ≡ t = cc in (daemon, inr (sym same))
    accepted (some fd) f =
        let (d, added, ended) = >>=-eq-done (add_pollfd fd (add_client fd daemon)) _ f in
        let same : goes_on signals d ≡ t = cc in (d, inl (sym same))

-- Why a pass ends the process.
abbrev pub HasCause : Turn → List Signal → Type 0
HasCause (goes_on ss d) signals = Unit
HasCause (breaks ss d) signals = Unit
HasCause (stops d) signals = IsTerminated signals
HasCause (fails d) signals = HasFailed signals
HasCause (waits d) signals = Unit

-- The turn ends the pass.
abbrev IsLast : Turn → Type 0
IsLast t =
    ((sockfd : ℕ) (events : Events) (i : ℕ) (p : Polled) → serve_turn sockfd events i p t ≡ done t)
    × ((next : List Signal → TelemDaemon → Run (Option Turn)) → serve_next next t ≡ done (some t))

-- What the read of the signalfd takes.
abbrev Took : List Signal → Turn → Type 0
Took signals t =
    ((rest : List Signal) × (d : TelemDaemon) × (t ≡ goes_on rest d)
      × (read : List Signal) × (signals ≡ read ++ rest))
    ⊎ (IsLast t × HasCause t signals)

check_signal-Took :
    (signals : List Signal) (daemon : TelemDaemon) → Took signals (check_signal signals daemon)
unfolding check_signal take_signal serve_turn serve_next
check_signal-Took signals daemon = elim (Bool-cases (is_signalled daemon.pollfds)) [
  | inr quiet ↦ rw quiet (inl (signals, daemon, refl, [], refl))
  | inl signalled ↦ rw signalled (taken signals)
]
  where
    taken : (ss : List Signal) → Took ss (take_signal ss daemon)
    taken [] = inr ((λ sockfd events i p. refl, λ next. refl), tt)
    taken (terminate ∷ ss) = inr ((λ sockfd events i p. refl, λ next. refl), ([], ss, refl))
    taken (bad_read ∷ ss) =
        inr ((λ sockfd events i p. refl, λ next. refl), ([], bad_read, ss, refl, inl refl))
    taken (hang_up true ∷ ss) = inl (ss, daemon, refl, hang_up true ∷ [], refl)
    taken (hang_up false ∷ ss) =
        inr ((λ sockfd events i p. refl, λ next. refl), ([], hang_up false, ss, refl, inr refl))
    taken (broken_pipe ∷ ss) = inl (ss, daemon, refl, broken_pipe ∷ [], refl)

later_HasCause :
    (t : Turn) (read rest signals : List Signal)
    → signals ≡ read ++ rest
    → HasCause t rest
    → HasCause t signals
later_HasCause (goes_on ss d) read rest signals e c = tt
later_HasCause (breaks ss d) read rest signals e c = tt
later_HasCause (waits d) read rest signals e c = tt
later_HasCause (stops d) read rest signals e (before, after, f) =
    (read ++ before, after, e ∙ ap (λ s. read ++ s) f ∙ sym (append_assoc read before _))
later_HasCause (fails d) read rest signals e (before, x, after, f, bad) =
    (read ++ before, x, after, e ∙ ap (λ s. read ++ s) f ∙ sym (append_assoc read before _), bad)

serve_next-HasCause :
    (next : List Signal → TelemDaemon → Run (Option Turn)) (rest : List Signal) (u t : Turn)
    → Leaves rest u
    → serve_next next u ≡ done (some t)
    → ((m : TelemDaemon) → next rest m ≡ done (some t) → HasCause t rest)
    → HasCause t rest
unfolding serve_next
serve_next-HasCause next rest u t (m, inl on) e ih = ih m (rw (on, serve_next) at e)
serve_next-HasCause next rest u t (m, inr off) e ih =
    let over : done (some (breaks rest m)) ≡ done (some t) = rw (off, serve_next) at e in
    let same : breaks rest m ≡ t = cc in subst (λ v. HasCause v rest) same tt

serve_from-HasCause :
    (fuel sockfd i : ℕ) (events : Events) (signals : List Signal) (daemon : TelemDaemon) (t : Turn)
    → serve_from fuel sockfd events i signals daemon ≡ done (some t)
    → HasCause t signals
unfolding serve_from serve_turn
serve_from-HasCause zero sockfd i events signals daemon t e = absurd cc
serve_from-HasCause (suc fuel) sockfd i events signals daemon t e =
    elim (Option-cases (get_elem? daemon.pollfds i)) [
      | inl over ↦
          let ended = sym (serve_from_over fuel sockfd i events signals daemon over) ∙ e in
          let same : goes_on signals daemon ≡ t = cc in subst (λ v. HasCause v signals) same tt
      | inr (p, at) ↦
          let (u, turned, left) = serve_from_turn fuel sockfd i events signals daemon p t at e in
          elim (check_signal-Took signals daemon) [
            | inl (rest, m, f, read, split) ↦ later_HasCause t read rest signals split (
                serve_next-HasCause _ rest u t
                  (serve_entry-Leaves sockfd events i p rest m u (rw (f, serve_turn) at turned))
                  left (λ m' g. serve_from-HasCause fuel sockfd (i + 1) events rest m' t g))
            | inr ((turns, nexts), cause) ↦
                let c = check_signal signals daemon in
                let kept : done c ≡ done u = sym (turns sockfd events i p) ∙ turned in
                let same_turn : c ≡ u = cc in
                let over : done (some c) ≡ done (some t) =
                  sym (nexts _) ∙ ap (serve_next _) same_turn ∙ left in
                let same : c ≡ t = cc in subst (λ v. HasCause v signals) same cause
          ]
    ]

-- A pass that stops the process has read SIGTERM or SIGINT; one that fails it has met a read that
-- failed or a SIGHUP whose configuration could not be loaded.
pub serve_pass-HasCause :
    (sockfd : ℕ) (reported : List Bool) (events : Events) (signals : List Signal)
    (daemon : TelemDaemon) (t : Turn)
    → serve_pass sockfd reported events signals daemon ≡ done (some t)
    → HasCause t signals
unfolding serve_pass
serve_pass-HasCause sockfd reported events signals daemon t e =
    serve_from-HasCause (length daemon.pollfds + 2) sockfd 0 events signals (poll reported daemon) t
      e
