-- ===== src/ProbeDaemon/Refinement.antt =====
-- What a pass of the main loop does to the connected clients and the staged files: the loop refines
-- single moves of a client that joins or leaves.
use telemetrics_client.Base.{
  ℕ, zero, suc, ◌+◌, ◌≡◌, inl, inr, refl, sym, ◌∙◌, Bool, List, Option, some, ◌==◌, get_elem?,
  length, Option-cases, if_cases,
}
use telemetrics_client.Base.Run.{Run, done, fault, ◌>>=◌, >>=-eq-done}
use telemetrics_client.ProbeDaemon.{Polled, TelemDaemon, find_client}
use telemetrics_client.ProbeDaemon.Counts.{find_client-get}
use telemetrics_client.ProbeDaemon.Loop.{
  Signal, Events, Turn, goes_on, breaks, stops, fails, waits, serve_client, serve_entry,
  check_signal, serve_turn, serve_next, serve_from, poll, serve_pass,
}
use telemetrics_client.ProbeDaemon.Receive.{handle_client}
use telemetrics_client.ProbeDaemon.Passes.{check_signal_cases, serve_from_over, serve_from_turn}
use telemetrics_client.ProbeDaemon.Moves.{
  View, view, Moves, here, next, daemon_of, accept_client-Moves, handle_client-Move,
}

serve_client-Moves :
    (events : Events) (i fd : ℕ) (signals : List Signal) (daemon : TelemDaemon) (t : Turn)
    → serve_client events i fd signals daemon ≡ done t
    → Moves events.accepted (view daemon) (view (daemon_of t))
unfolding serve_client
serve_client-Moves events i fd signals daemon t e =
    elim (Option-cases (find_client fd daemon.clients)) [
      | inl absent ↦
          let broken : fault ≡ done t = sym (rw (absent, serve_client) refl) ∙ e in absurd cc
      | inr (place, found) ↦
          let opened : serve_client events i fd signals daemon ≡ (
              handle_client events.stored_id i place (events.received fd) daemon >>= λ (_, d).
              done (goes_on signals (record d { last_record_received = events.served_at }))) =
            rw (found, serve_client) refl in
          let ((b, d), handled, last) =
            >>=-eq-done (handle_client events.stored_id i place (events.received fd) daemon) _
              (sym opened ∙ e) in
          let same : goes_on signals (record d { last_record_received = events.served_at }) ≡ t =
            cc in
          rw (sym same) (
            next here (
              handle_client-Move events.accepted events.stored_id i place fd (events.received fd)
                daemon d b (find_client-get fd daemon.clients place found) handled))
    ]

serve_entry-Moves :
    (sockfd : ℕ) (events : Events) (i : ℕ) (p : Polled) (signals : List Signal)
    (daemon : TelemDaemon) (t : Turn)
    → serve_entry sockfd events i p signals daemon ≡ done t
    → Moves events.accepted (view daemon) (view (daemon_of t))
unfolding serve_entry
serve_entry-Moves sockfd events i p signals daemon t e = elim (if_cases p.revents e) [
  | inr (_, idle) ↦ let same : goes_on signals daemon ≡ t = cc in rw (sym same) here
  | inl (_, reported) ↦ elim (if_cases (p.fd == sockfd) reported) [
    | inl (_, listens) ↦ accept_client-Moves events.accepted signals daemon t listens
    | inr (_, client) ↦ elim (if_cases (i == 0) client) [
      | inl (_, idle) ↦ let same : goes_on signals daemon ≡ t = cc in rw (sym same) here
      | inr (_, serves) ↦ serve_client-Moves events i p.fd signals daemon t serves
    ]
  ]
]

Moves-trans :
    (accepted : Option ℕ) {v w u : View}
    → Moves accepted v w
    → Moves accepted w u
    → Moves accepted v u
Moves-trans accepted a here = a
Moves-trans accepted a (next b m) = next (Moves-trans accepted a b) m

serve_turn-Moves :
    (sockfd : ℕ) (events : Events) (i : ℕ) (p : Polled) (signals : List Signal)
    (daemon : TelemDaemon) (t : Turn)
    → serve_turn sockfd events i p (check_signal signals daemon) ≡ done t
    → Moves events.accepted (view daemon) (view (daemon_of t))
unfolding serve_turn
serve_turn-Moves sockfd events i p signals daemon t e = elim (check_signal_cases signals daemon) [
  | inl (rest, f) ↦ serve_entry-Moves sockfd events i p rest daemon t (rw (f, serve_turn) at e)
  | inr (inl f) ↦
      let stopped : done (stops daemon) ≡ done t = rw (f, serve_turn) at e in
      let same : stops daemon ≡ t = cc in rw (sym same) here
  | inr (inr (inl f)) ↦
      let failed : done (fails daemon) ≡ done t = rw (f, serve_turn) at e in
      let same : fails daemon ≡ t = cc in rw (sym same) here
  | inr (inr (inr f)) ↦
      let waiting : done (waits daemon) ≡ done t = rw (f, serve_turn) at e in
      let same : waits daemon ≡ t = cc in rw (sym same) here
]

serve_next-Moves :
    (accepted : Option ℕ) (next_turn : List Signal → TelemDaemon → Run (Option Turn)) (u t : Turn)
    → ((signals : List Signal) (d : TelemDaemon)
        → next_turn signals d ≡ done (some t)
        → Moves accepted (view d) (view (daemon_of t)))
    → serve_next next_turn u ≡ done (some t)
    → Moves accepted (view (daemon_of u)) (view (daemon_of t))
unfolding serve_next
serve_next-Moves accepted next_turn (goes_on s d) t ih e = ih s d e
serve_next-Moves accepted next_turn (breaks s d) t ih e =
    let same : breaks s d ≡ t = cc in rw (sym same) here
serve_next-Moves accepted next_turn (stops d) t ih e =
    let same : stops d ≡ t = cc in rw (sym same) here
serve_next-Moves accepted next_turn (fails d) t ih e =
    let same : fails d ≡ t = cc in rw (sym same) here
serve_next-Moves accepted next_turn (waits d) t ih e =
    let same : waits d ≡ t = cc in rw (sym same) here

serve_from-Moves :
    (fuel sockfd i : ℕ) (events : Events) (signals : List Signal) (daemon : TelemDaemon) (t : Turn)
    → serve_from fuel sockfd events i signals daemon ≡ done (some t)
    → Moves events.accepted (view daemon) (view (daemon_of t))
unfolding serve_from
serve_from-Moves zero sockfd i events signals daemon t e = absurd cc
serve_from-Moves (suc fuel) sockfd i events signals daemon t e =
    elim (Option-cases (get_elem? daemon.pollfds i)) [
      | inl over ↦
          let ended = sym (serve_from_over fuel sockfd i events signals daemon over) ∙ e in
          let same : goes_on signals daemon ≡ t = cc in rw (sym same) here
      | inr (p, at) ↦
          let (u, turned, rest) = serve_from_turn fuel sockfd i events signals daemon p t at e in
          Moves-trans events.accepted (serve_turn-Moves sockfd events i p signals daemon u turned) (
            serve_next-Moves events.accepted _ u t
              (λ s d f. serve_from-Moves fuel sockfd (i + 1) events s d t f) rest)
    ]

-- Whatever a pass over the descriptors meets, when it ends it has made moves of the abstract daemon
-- only: the accepted descriptor joins the connected ones, or a connected descriptor leaves, and only
-- with a client that leaves is a file staged, at most one.
pub serve_pass-Moves :
    (sockfd : ℕ) (reported : List Bool) (events : Events) (signals : List Signal)
    (daemon : TelemDaemon) (t : Turn)
    → serve_pass sockfd reported events signals daemon ≡ done (some t)
    → Moves events.accepted (view daemon) (view (daemon_of t))
unfolding serve_pass poll
serve_pass-Moves sockfd reported events signals daemon t e =
    serve_from-Moves (length daemon.pollfds + 2) sockfd 0 events signals (poll reported daemon) t e
