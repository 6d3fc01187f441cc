-- ===== src/ProbeDaemon/Turns.antt =====
-- That a turn of the loop over the descriptors leaves the tables in step.
use telemetrics_client.Base.{
  ℕ, zero, suc, ◌+◌, ◌≤◌, ◌≡◌, refl, sym, ap, ◌∙◌, inl, inr, false, List, ◌∷◌, some, ◌==◌,
  if◌then◌else◌, length, get_elem?, arith, Bool-cases, ==_iff,
}
use telemetrics_client.Base.Run.{done}
use telemetrics_client.ProbeDaemon.{Polled, TelemDaemon}
use telemetrics_client.ProbeDaemon.Counts.{count, count_of_get, get_elem?-map, get_elem?_inside}
use telemetrics_client.ProbeDaemon.Loop.{Signal, Events, goes_on, serve_client, serve_entry}
use telemetrics_client.ProbeDaemon.Serving.{IsServing, IsFresh}
use telemetrics_client.ProbeDaemon.Handling.{
  TurnLeads, HasFuel, AllFresh, accept_client_serves, serve_client_serves,
}

-- A turn that does nothing leaves the fuel for the next.
idle_ready : (fuel i n : ℕ) → HasFuel (suc fuel) i n → suc i ≤ n → HasFuel fuel (i + 1) n
idle_ready fuel i n h inside = ground (arith, h, inside)

-- The listening socket has the second place.
listener_place :
    (sigfd sockfd i : ℕ) (daemon : TelemDaemon) (p : Polled)
    → IsServing sigfd sockfd daemon
    → get_elem? daemon.pollfds i ≡ some p
    → p.fd ≡ sockfd
    → i ≡ 1
unfolding count
listener_place sigfd sockfd i daemon p s at e =
    listed i
      (ap (λ l. get_elem? l i) (sym s.polled) ∙ get_elem?-map (λ q. q.fd) i daemon.pollfds p at)
  where
    listed : (k : ℕ) → get_elem? (sigfd ∷ sockfd ∷ s.connected) k ≡ some p.fd → k ≡ 1
    listed zero f = let same : sigfd ≡ p.fd = cc in absurd (ground (arith, s.once sockfd, same, e))
    listed (suc zero) f = refl
    listed (suc (suc j)) f =
        absurd (ground (arith, s.once sockfd, s.same sockfd, count_of_get j p.fd s.connected f, e))

-- A descriptor that is not the listening socket.
serve_other_serves :
    (sigfd sockfd fuel i : ℕ) (events : Events) (p : Polled) (signals : List Signal)
    (daemon : TelemDaemon)
    → IsServing sigfd sockfd daemon
    → (i ≤ 1 → AllFresh sigfd sockfd events.accepted daemon)
    → HasFuel (suc fuel) i (length daemon.pollfds)
    → get_elem? daemon.pollfds i ≡ some p
    → (p.fd == sockfd) ≡ false
    → TurnLeads sigfd sockfd events fuel i (
        if i == 0 then done (goes_on signals daemon) else serve_client events i p.fd signals daemon)
serve_other_serves sigfd sockfd fuel zero events p signals daemon s fresh h at other = inl (
  goes_on signals daemon,
  refl,
  s,
  (idle_ready fuel 0 _ h (get_elem?_inside 0 daemon.pollfds p at), λ z. fresh (omega arith)),
)
serve_other_serves sigfd sockfd fuel (suc zero) events p signals daemon s fresh h at other =
    let listed : some sockfd ≡ some p.fd =
      ap (λ l. get_elem? l 1) (sym s.polled) ∙ get_elem?-map (λ q. q.fd) 1 daemon.pollfds p at in
    let same : sockfd ≡ p.fd = cc in absurd (ground (arith, same, other))
serve_other_serves sigfd sockfd fuel (suc (suc j)) events p signals daemon s fresh h at other =
    let behind : (suc (suc j) == 0) ≡ false = ground arith in
    rw behind (serve_client_serves sigfd sockfd fuel j events p signals daemon s h at)

pub serve_entry_serves :
    (sigfd sockfd fuel i : ℕ) (events : Events) (p : Polled) (signals : List Signal)
    (daemon : TelemDaemon)
    → IsServing sigfd sockfd daemon
    → (i ≤ 1 → (fd : ℕ) → events.accepted ≡ some fd → IsFresh fd sigfd sockfd daemon)
    → HasFuel (suc fuel) i (length daemon.pollfds)
    → get_elem? daemon.pollfds i ≡ some p
    → TurnLeads sigfd sockfd events fuel i (serve_entry sockfd events i p signals daemon)
unfolding serve_entry
serve_entry_serves sigfd sockfd fuel i events p signals daemon s fresh h at =
    let inside = get_elem?_inside i daemon.pollfds p at in
    elim (Bool-cases p.revents) [
      | inr idle ↦ inl (
        goes_on signals daemon,
        rw idle refl,
        s,
        (idle_ready fuel i _ h inside, λ z. fresh (omega (arith, z))),
      )
      | inl reported ↦ elim (Bool-cases (p.fd == sockfd)) [
        | inl listens ↦
            let second =
              listener_place sigfd sockfd i daemon p s at ((==_iff p.fd sockfd).0 listens) in
            let (t, e, serves, ready) =
              accept_client_serves sigfd sockfd fuel events.accepted signals daemon s
                (fresh (omega (arith, second))) (ground (arith, h, second, inside))
                (omega (arith, second, inside)) in
            inl (t, rw (reported, listens) e, serves, rw second ready)
        | inr connected ↦
            rw (reported, connected)
              (serve_other_serves sigfd sockfd fuel i events p signals daemon s fresh h at
                connected)
      ]
    ]
