-- ===== src/ProbeDaemon/Handling.antt =====
-- What a turn makes of an accepted client, and of a client that is served.
use telemetrics_client.Base.{
  ℕ, suc, ◌+◌, ◌≤◌, ◌≡◌, refl, sym, ap, ◌∙◌, ◌⊎◌, inl, inr, Bool, List, Option, none, some, ltb,
  if◌then◌else◌, length, get_elem?, arith,
}
use telemetrics_client.Base.Bytes.{Bytes}
use telemetrics_client.Base.Run.{Run, done, exit, fault}
use telemetrics_client.ProbeDaemon.{Polled, TelemDaemon, find_client}
use telemetrics_client.ProbeDaemon.Counts.{
  count_of_get, find_client-finds, get_elem?-map, get_elem?_inside,
}
use telemetrics_client.ProbeDaemon.Loop.{
  Signal, Events, Turn, goes_on, breaks, stops, fails, waits, accept_client, serve_client,
}
use telemetrics_client.ProbeDaemon.Receive.{Received, receive_record, stage_file, handle_client}
use telemetrics_client.ProbeDaemon.Serving.{
  IsServing, IsFresh, accept-IsServing, terminate-IsServing,
}
use telemetrics_client.Record.Probd.{machine_id}

-- The run ends the process or leaves an object.
abbrev pub Stuck {ℓ} : {A : Type ℓ} → Run A → Type ℓ
Stuck run = (run ≡ exit) ⊎ (run ≡ fault)

Run-cases {ℓ} : {A : Type ℓ} (run : Run A) → ((a : A) × (run ≡ done a)) ⊎ Stuck run
Run-cases (done a) = inl (a, refl)
Run-cases exit = inr (inl refl)
Run-cases fault = inr (inr refl)

-- One client sends what makes receive_record fail its assertion or leave its buffer.
abbrev pub AreUnreadable : Events → Type 0
AreUnreadable events = (fd : ℕ) × (id : Bytes) × Stuck (receive_record id (events.received fd))

stage_file-IsServing :
    (sigfd sockfd : ℕ) (file : Option Bytes) (daemon : TelemDaemon)
    → IsServing sigfd sockfd daemon
    → IsServing sigfd sockfd (stage_file file daemon)
unfolding stage_file
stage_file-IsServing sigfd sockfd none daemon s = s
stage_file-IsServing sigfd sockfd (some file) daemon s = record {
  connected = s.connected;
  polled = s.polled;
  same = s.same;
  once = s.once;
  allocated = s.allocated;
}

stage_file_tables :
    (file : Option Bytes) (daemon : TelemDaemon)
    → ((stage_file file daemon).pollfds ≡ daemon.pollfds)
      × ((stage_file file daemon).clients ≡ daemon.clients)
unfolding stage_file
stage_file_tables none daemon = (refl, refl)
stage_file_tables (some file) daemon = (refl, refl)

handle_client-IsServing :
    (sigfd sockfd j place : ℕ) (stored_id : Option Bytes) (stream : List Received)
    (daemon : TelemDaemon) (p : Polled)
    → IsServing sigfd sockfd daemon
    → get_elem? daemon.pollfds (suc (suc j)) ≡ some p
    → get_elem? daemon.clients place ≡ some p.fd
    → ((b : Bool) × (d : TelemDaemon) × (handle_client stored_id (suc (suc j)) place stream daemon
          ≡ done (b, d))
        × IsServing sigfd sockfd d
        × (suc (length d.pollfds) ≡ length daemon.pollfds))
      ⊎ (Stuck (handle_client stored_id (suc (suc j)) place stream daemon)
          × Stuck (receive_record (machine_id daemon.machine_id_override stored_id) stream))
unfolding handle_client
handle_client-IsServing sigfd sockfd j place stored_id stream daemon p s at client =
    elim (Run-cases (receive_record (machine_id daemon.machine_id_override stored_id) stream)) [
      | inr stuck ↦ inr (elim stuck [ inl e ↦ inl (rw e refl) | inr e ↦ inr (rw e refl) ], stuck)
      | inl ((b, file), received) ↦
          let (polls, cls) = stage_file_tables file daemon in
          let (d, ended, serving, shorter) =
            terminate-IsServing sigfd sockfd j place p.fd (stage_file file daemon) p
              (stage_file-IsServing sigfd sockfd file daemon s)
              (ap (λ l. get_elem? l (suc (suc j))) polls ∙ at)
              (ap (λ l. get_elem? l place) cls ∙ client) in
          inl (b, d, rw (received, ended) refl, serving, shorter ∙ ap length polls)
    ]

-- A descriptor other than the first two is that of a client.
client_found :
    (sigfd sockfd j : ℕ) (daemon : TelemDaemon) (p : Polled)
    → IsServing sigfd sockfd daemon
    → get_elem? daemon.pollfds (suc (suc j)) ≡ some p
    → (place : ℕ) × (find_client p.fd daemon.clients ≡ some place)
      × (get_elem? daemon.clients place ≡ some p.fd)
client_found sigfd sockfd j daemon p s at =
    let listed : get_elem? s.connected j ≡ some p.fd =
      ap (λ l. get_elem? l (suc (suc j))) (sym s.polled)
      ∙ get_elem?-map (λ q. q.fd) (suc (suc j)) daemon.pollfds p at in
    find_client-finds p.fd daemon.clients
      (λ z. count_of_get j p.fd s.connected listed (s.same p.fd ∙ z))

-- How a pass can end: with the tables in step.
abbrev pub TurnServes : ℕ → ℕ → Turn → Type 0
TurnServes sigfd sockfd (goes_on signals d) = IsServing sigfd sockfd d
TurnServes sigfd sockfd (breaks signals d) = IsServing sigfd sockfd d
TurnServes sigfd sockfd (stops d) = IsServing sigfd sockfd d
TurnServes sigfd sockfd (fails d) = IsServing sigfd sockfd d
TurnServes sigfd sockfd (waits d) = IsServing sigfd sockfd d

-- The turns that are left, with one for a client that is accepted.
abbrev pub HasFuel : ℕ → ℕ → ℕ → Type 0
HasFuel fuel i n = (1 ≤ fuel) × (n + (if ltb i 2 then 2 else 1) ≤ fuel + i)

-- A turn that goes on leaves the fuel for the next.
abbrev pub AllFresh : ℕ → ℕ → Option ℕ → TelemDaemon → Type 0
AllFresh sigfd sockfd accepted daemon =
    (fd : ℕ) → accepted ≡ some fd → IsFresh fd sigfd sockfd daemon

abbrev pub TurnReady : ℕ → ℕ → Option ℕ → ℕ → ℕ → Turn → Type 0
TurnReady sigfd sockfd accepted fuel i (goes_on signals d) =
    HasFuel fuel (i + 1) (length d.pollfds) × (i + 1 ≤ 1 → AllFresh sigfd sockfd accepted d)
TurnReady sigfd sockfd accepted fuel i turn = Unit

-- What a pass may meet: accept gives a descriptor that is not in use.
pub record ArePossible (sigfd sockfd : ℕ) (events : Events) (daemon : TelemDaemon) : Type 0 where
  pub fresh : (fd : ℕ) → events.accepted ≡ some fd → IsFresh fd sigfd sockfd daemon

-- What a turn leads to: its end, with the tables in step, or an unreadable client.
abbrev pub TurnLeads : ℕ → ℕ → Events → ℕ → ℕ → Run Turn → Type 0
TurnLeads sigfd sockfd events fuel i run =
    ((t : Turn) × (run ≡ done t)
      × TurnServes sigfd sockfd t
      × TurnReady sigfd sockfd events.accepted fuel i t)
    ⊎ (Stuck run × AreUnreadable events)

pub accept_client_serves :
    (sigfd sockfd fuel : ℕ) (accepted : Option ℕ) (signals : List Signal) (daemon : TelemDaemon)
    → IsServing sigfd sockfd daemon
    → ((fd : ℕ) → accepted ≡ some fd → IsFresh fd sigfd sockfd daemon)
    → HasFuel (suc fuel) 1 (length daemon.pollfds)
    → suc 1 ≤ length daemon.pollfds
    → (t : Turn) × (accept_client accepted signals daemon ≡ done t)
      × TurnServes sigfd sockfd t
      × TurnReady sigfd sockfd accepted fuel 1 t
unfolding accept_client
accept_client_serves sigfd sockfd fuel none signals daemon s fresh h inside = (_, refl, s, tt)
accept_client_serves sigfd sockfd fuel (some fd) signals daemon s fresh h inside =
    let (d, added, serving, longer) = accept-IsServing sigfd sockfd fd daemon s (fresh fd refl) in
    (
      goes_on signals d,
      rw added refl,
      serving,
      (ground (arith, h, inside, longer), λ z. absurd (omega arith)),
    )

serve_client_found :
    (events : Events) (i fd place : ℕ) (signals : List Signal) (daemon d : TelemDaemon) (b : Bool)
    → find_client fd daemon.clients ≡ some place
    → handle_client events.stored_id i place (events.received fd) daemon ≡ done (b, d)
    → serve_client events i fd signals daemon
      ≡ done (goes_on signals (record d { last_record_received = events.served_at }))
unfolding serve_client
serve_client_found events i fd place signals daemon d b found handled =
    rw (found, serve_client, handled) refl

-- The time of the last record is in no table.
pub at_time-IsServing :
    (sigfd sockfd time : ℕ) (daemon : TelemDaemon)
    → IsServing sigfd sockfd daemon
    → IsServing sigfd sockfd (record daemon { last_record_received = time })
at_time-IsServing sigfd sockfd time daemon s = record {
  connected = s.connected;
  polled = s.polled;
  same = s.same;
  once = s.once;
  allocated = s.allocated;
}

pub serve_client_serves :
    (sigfd sockfd fuel j : ℕ) (events : Events) (p : Polled) (signals : List Signal)
    (daemon : TelemDaemon)
    → IsServing sigfd sockfd daemon
    → HasFuel (suc fuel) (suc (suc j)) (length daemon.pollfds)
    → get_elem? daemon.pollfds (suc (suc j)) ≡ some p
    → TurnLeads sigfd sockfd events fuel
        (suc (suc j))
        (serve_client events (suc (suc j)) p.fd signals daemon)
unfolding serve_client
serve_client_serves sigfd sockfd fuel j events p signals daemon s h at =
    let (place, found, client) = client_found sigfd sockfd j daemon p s at in
    elim (handle_client-IsServing sigfd sockfd j place events.stored_id (events.received p.fd)
      daemon p s at client) [
        | inr (stuck, unreadable) ↦ inr (
          elim stuck [
            | inl e ↦ inl (rw (found, serve_client, e) refl)
            | inr e ↦ inr (rw (found, serve_client, e) refl)
          ],
          (p.fd, machine_id daemon.machine_id_override events.stored_id, unreadable),
        )
        | inl (b, d, handled, serving, shorter) ↦ inl (
          goes_on signals (record d { last_record_received = events.served_at }),
          serve_client_found events (suc (suc j)) p.fd place signals daemon d b found handled,
          at_time-IsServing sigfd sockfd events.served_at d serving,
          (
            ground (arith, h, shorter, get_elem?_inside (suc (suc j)) daemon.pollfds p at),
            λ z. absurd (omega (arith, z)),
          ),
        )
      ]
