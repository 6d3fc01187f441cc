-- ===== src/ProbeDaemon/Serving.antt =====
-- That the array of poll descriptors and the list of clients stay in step, through add_client,
-- add_pollfd and handle_client.
use mathlib.Core.List.{map-append}
use telemetrics_client.Base.{
  ℕ, suc, ◌+◌, ◌*◌, ◌≤◌, ◌≡◌, ◌≢◌, refl, sym, ap, ◌∙◌, true, false, List, [], ◌∷◌, ◌++◌, Option,
  some, ltb, leb, leb→le, length, length-append, get_elem?, map, arith,
}
use telemetrics_client.Base.Bytes.{Bytes}
use telemetrics_client.Base.Run.{done}
use telemetrics_client.ProbeDaemon.{
  Polled, TelemDaemon, initialize_probe_daemon, add_client, add_pollfd, del_pollfd, pollfds_room,
  remove_at, remove_client,
}
use telemetrics_client.ProbeDaemon.Counts.{
  count, count-append, count-remove_at, map-remove_at, get_elem?-map, length-remove_at,
  get_elem?_inside,
}
use telemetrics_client.ProbeDaemon.Loop.{start}
use telemetrics_client.ProbeDaemon.Receive.{terminate_client}
use telemetrics_client.Util.{reallocate}

abbrev pub fds : List Polled → List ℕ
fds = map (λ p. p.fd)

-- The array holds the signalfd, the listening socket and the descriptors of the clients; each
-- descriptor is there once, and the entries fit into the allocated memory.
pub record IsServing (sigfd sockfd : ℕ) (daemon : TelemDaemon) : Type 0 where
  pub connected : List ℕ
  pub polled : fds daemon.pollfds ≡ sigfd ∷ sockfd ∷ connected
  pub same : (x : ℕ) → count x connected ≡ count x daemon.clients
  pub once : (x : ℕ) → count x (sigfd ∷ sockfd ∷ daemon.clients) ≤ 1
  pub allocated : length daemon.pollfds * 8 ≤ daemon.current_alloc

-- After poll, and the two that are added first.
pub start-IsServing :
    (now sigfd sockfd : ℕ) (override : Option Bytes)
    → sigfd ≢ sockfd
    → (d : TelemDaemon) × (start now sigfd sockfd override ≡ done d) × IsServing sigfd sockfd d
unfolding start add_pollfd initialize_probe_daemon pollfds_room reallocate count
start-IsServing now sigfd sockfd override h = (
  _,
  refl,
  record {
    connected = [];
    polled = refl;
    same = λ x. refl;
    once = λ x. ground (arith, h);
    allocated = omega arith;
  },
)

room_enough :
    (daemon : TelemDaemon)
    → length daemon.pollfds * 8 ≤ daemon.current_alloc
    → leb ((length daemon.pollfds + 1) * 8) (pollfds_room daemon) ≡ true
unfolding pollfds_room reallocate
room_enough daemon h = ground (arith, h)

-- The descriptor of a new client is none of those that are open.
abbrev pub IsFresh : ℕ → ℕ → ℕ → TelemDaemon → Type 0
IsFresh fd sigfd sockfd daemon = count fd (sigfd ∷ sockfd ∷ daemon.clients) ≡ 0

pub accept-IsServing :
    (sigfd sockfd fd : ℕ) (daemon : TelemDaemon)
    → IsServing sigfd sockfd daemon
    → IsFresh fd sigfd sockfd daemon
    → (d : TelemDaemon) × (add_pollfd fd (add_client fd daemon) ≡ done d)
      × IsServing sigfd sockfd d
      × (length d.pollfds ≡ length daemon.pollfds + 1)
unfolding add_pollfd add_client count
accept-IsServing sigfd sockfd fd daemon s h =
    let room : leb ((length daemon.pollfds + 1) * 8) (pollfds_room (add_client fd daemon)) ≡ true =
      room_enough (add_client fd daemon) s.allocated in
    let joined : TelemDaemon = record daemon {
      pollfds = daemon.pollfds ++ record { fd = fd; revents = false } ∷ [];
      current_alloc = pollfds_room (add_client fd daemon);
      clients = fd ∷ daemon.clients;
    } in
    (
      joined,
      rw room refl,
      record {
        connected = s.connected ++ fd ∷ [];
        polled = map-append _ _ _ ∙ ap (λ l. l ++ fd ∷ []) s.polled;
        same = λ x. ground (arith, count-append x s.connected (fd ∷ []), s.same x);
        once = λ x. ground (arith, s.once x, h);
        allocated = omega (
          arith,
          leb→le _ _ room,
          length-append daemon.pollfds (record { fd = fd; revents = false } ∷ []),
        );
      },
      length-append daemon.pollfds _,
    )

pub terminate-IsServing :
    (sigfd sockfd j place fd : ℕ) (daemon : TelemDaemon) (p : Polled)
    → (s : IsServing sigfd sockfd daemon) → get_elem? daemon.pollfds (suc (suc j)) ≡ some p
    → get_elem? daemon.clients place ≡ some p.fd
    → (d : TelemDaemon) × (terminate_client (suc (suc j)) place daemon ≡ done d)
      × IsServing sigfd sockfd d
      × (suc (length d.pollfds) ≡ length daemon.pollfds)
unfolding terminate_client del_pollfd remove_client count
terminate-IsServing sigfd sockfd j place fd daemon p s at client =
    let inside : ltb (suc (suc j)) (length daemon.pollfds) ≡ true =
      ground (arith, get_elem?_inside (suc (suc j)) daemon.pollfds p at) in
    let listed : get_elem? s.connected j ≡ some p.fd =
      ap (λ l. get_elem? l (suc (suc j))) (sym s.polled)
      ∙ get_elem?-map (λ q. q.fd) (suc (suc j)) daemon.pollfds p at in
    let shorter = length-remove_at (suc (suc j)) daemon.pollfds p at in
    let left : TelemDaemon = record daemon {
      pollfds = remove_at (suc (suc j)) daemon.pollfds;
      clients = remove_at place daemon.clients;
    } in
    (
      left,
      rw inside refl,
      record {
        connected = remove_at j s.connected;
        polled =
            map-remove_at (λ q. q.fd) (suc (suc j)) daemon.pollfds
            ∙ ap (remove_at (suc (suc j))) s.polled;
        same = λ x. ground (
          arith,
          count-remove_at x j p.fd s.connected listed,
          count-remove_at x place p.fd daemon.clients client,
          s.same x,
        );
        once = λ x. ground (arith, count-remove_at x place p.fd daemon.clients client, s.once x);
        allocated = omega (arith, shorter, s.allocated);
      },
      shorter,
    )
