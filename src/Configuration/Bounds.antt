-- ===== src/Configuration/Bounds.antt =====
-- The ranges of the configured values, which their users rely on.
use telemetrics_client.Base.{
  ℕ, ◌*◌, ◌/◌, ◌≤◌, ◌<◌, ◌^◌, ◌≡◌, ◌⊎◌, inl, inr, refl, sym, ◌∙◌, List, [], ◌∷◌, map, arith,
  Bool-cases, ltb,
}
use telemetrics_client.Base.Bytes.{Bytes, codes, equal, equal→eq}
use telemetrics_client.Base.Int.{ℤ, pos, negsuc}
use telemetrics_client.Base.Run.{done, >>=-eq-done}
use telemetrics_client.Configuration.{
  Configuration, ConfigState, ConfigSystem, initialize_config, to_lower,
}
use telemetrics_client.Configuration.Loading.{initialize_config_marks, initialized_stays}
use telemetrics_client.Configuration.Values.{
  config_value, int_value, str_value, clamp, clamp_run_time, window_length, record_expiry_config,
  spool_max_size_config, spool_process_time_config, record_window_length_config,
  byte_window_length_config, known_strategy, lower_strategy, rate_limit_strategy_config,
}

config_value_read :
    {A : Type 0} (read : Configuration → A) (sys : ConfigSystem) (s s' : ConfigState) {v : A}
    → config_value read sys s ≡ done (v, s')
    → v ≡ read s'.config
unfolding config_value
config_value_read read sys s s' e = let (t, _, e') = >>=-eq-done (initialize_config sys s) _ e in cc

clamp_bound :
    (limit : ℕ) (val : ℤ)
    → (clamp limit val ≡ negsuc 0) ⊎ ((n : ℕ) × (clamp limit val ≡ pos n) × (n ≤ limit))
unfolding clamp
clamp_bound limit (negsuc n) = inl (ground arith)
clamp_bound limit (pos n) = elim (Bool-cases (ltb limit n)) [
  | inl above ↦ inr (limit, ground arith, omega arith)
  | inr below ↦ inr (n, ground arith, ground arith)
]

run_time_bound : (val : ℤ) → (n : ℕ) × (clamp_run_time val ≡ pos n) × (120 ≤ n) × (n ≤ 300)
unfolding clamp_run_time
run_time_bound (negsuc n) = (120, ground arith, omega arith, omega arith)
run_time_bound (pos n) = elim (Bool-cases (ltb n 120)) [
  | inl low ↦ (120, ground arith, omega arith, omega arith)
  | inr least ↦ elim (Bool-cases (ltb 300 n)) [
    | inl high ↦ (300, ground arith, omega arith, omega arith)
    | inr most ↦ (n, ground arith, ground arith, ground arith)
  ]
]

window_bound :
    (val : ℤ) → (window_length val ≡ negsuc 0) ⊎ ((n : ℕ) × (window_length val ≡ pos n) × (n < 60))
unfolding window_length
window_bound (negsuc n) = inl (ground arith)
window_bound (pos n) = elim (Bool-cases (ltb n 60)) [
  | inl fits ↦ inr (n, ground arith, ground arith)
  | inr over ↦ inl (ground arith)
]

-- The configured expiry is -1 or a number of minutes whose seconds fit in 63 bits.
record_expiry_config_fits :
    (sys : ConfigSystem) (s s' : ConfigState) (v : ℤ)
    → record_expiry_config sys s ≡ done (v, s')
    → (v ≡ negsuc 0) ⊎ ((n : ℕ) × (v ≡ pos n) × (n * 60 < 2 ^ 63))
unfolding record_expiry_config
record_expiry_config_fits sys s s' v e =
    let same = config_value_read _ sys s s' e in
    elim (clamp_bound (9223372036854775807 / 60) (int_value 0 s'.config)) [
      | inl invalid ↦ inl (same ∙ invalid)
      | inr (n, is, most) ↦ inr (n, same ∙ is, omega (arith, most))
    ]

-- The configured size of the spool is -1 or a number of KiB whose bytes fit in 63 bits.
spool_max_size_config_fits :
    (sys : ConfigSystem) (s s' : ConfigState) (v : ℤ)
    → spool_max_size_config sys s ≡ done (v, s')
    → (v ≡ negsuc 0) ⊎ ((n : ℕ) × (v ≡ pos n) × (n * 1024 < 2 ^ 63))
unfolding spool_max_size_config
spool_max_size_config_fits sys s s' v e =
    let same = config_value_read _ sys s s' e in
    elim (clamp_bound (9223372036854775807 / 1024) (int_value 1 s'.config)) [
      | inl invalid ↦ inl (same ∙ invalid)
      | inr (n, is, most) ↦ inr (n, same ∙ is, omega (arith, most))
    ]

-- The configured time between two runs of the spool is from 120 to 300 seconds.
spool_process_time_config_within :
    (sys : ConfigSystem) (s s' : ConfigState) (v : ℤ)
    → spool_process_time_config sys s ≡ done (v, s')
    → (n : ℕ) × (v ≡ pos n) × (120 ≤ n) × (n ≤ 300)
unfolding spool_process_time_config
spool_process_time_config_within sys s s' v e =
    let same = config_value_read _ sys s s' e in
    let (n, is, least, most) = run_time_bound (int_value 2 s'.config) in (n, same ∙ is, least, most)

-- The configured expiry is -1 or a number of minutes whose seconds fit in 63 bits, the configured size
-- of the spool is -1 or a number of KiB whose bytes fit in 63 bits, and the configured time between
-- two runs of the spool is from 120 to 300 seconds.
pub spool_configs_fit :
    (sys : ConfigSystem) (s s' t t' u u' : ConfigState) (v w x : ℤ)
    → record_expiry_config sys s ≡ done (v, s')
    → spool_max_size_config sys t ≡ done (w, t')
    → spool_process_time_config sys u ≡ done (x, u')
    → ((v ≡ negsuc 0) ⊎ ((n : ℕ) × (v ≡ pos n) × (n * 60 < 2 ^ 63)))
      × ((w ≡ negsuc 0) ⊎ ((n : ℕ) × (w ≡ pos n) × (n * 1024 < 2 ^ 63)))
      × ((n : ℕ) × (x ≡ pos n) × (120 ≤ n) × (n ≤ 300))
spool_configs_fit sys s s' t t' u u' v w x e f g = (
  record_expiry_config_fits sys s s' v e,
  spool_max_size_config_fits sys t t' w f,
  spool_process_time_config_within sys u u' x g,
)

-- Both configured window lengths are -1 or below the 60 slots of a burst array.
pub window_length_config_fits :
    (sys : ConfigSystem) (s s' t t' : ConfigState) (v w : ℤ)
    → record_window_length_config sys s ≡ done (v, s')
    → byte_window_length_config sys t ≡ done (w, t')
    → ((v ≡ negsuc 0) ⊎ ((n : ℕ) × (v ≡ pos n) × (n < 60)))
      × ((w ≡ negsuc 0) ⊎ ((n : ℕ) × (w ≡ pos n) × (n < 60)))
unfolding record_window_length_config byte_window_length_config
window_length_config_fits sys s s' t t' v w e f = (
  rw (config_value_read _ sys s s' e) (window_bound (int_value 3 s'.config)),
  rw (config_value_read _ sys t t' f) (window_bound (int_value 4 t'.config)),
)

known_strategy_known :
    (val : Bytes) → (known_strategy val ≡ codes "spool") ⊎ (known_strategy val ≡ codes "drop")
unfolding known_strategy
known_strategy_known val = elim (Bool-cases (equal val (codes "spool"))) [
  | inl spool ↦ inl (rw spool (equal→eq val (codes "spool") spool))
  | inr other ↦ elim (Bool-cases (equal val (codes "drop"))) [
    | inl drop ↦ inr (rw (other, drop) (equal→eq val (codes "drop") drop))
    | inr neither ↦ inl (rw (other, neither) refl)
  ]
]

to_lower_twice : (val : Bytes) → map to_lower (map to_lower val) ≡ map to_lower val
unfolding to_lower
to_lower_twice [] = refl
to_lower_twice (c ∷ cs) =
    let once : to_lower (to_lower c) ≡ to_lower c = ground arith in
    rw (once, to_lower_twice cs) refl

lower_strategy_twice :
    (config : Configuration) (strs : List Bytes)
    → config.str_values ≡ strs
    → lower_strategy (lower_strategy config) ≡ lower_strategy config
unfolding lower_strategy
lower_strategy_twice config [] e = rw e refl
lower_strategy_twice config (a ∷ []) e = rw e refl
lower_strategy_twice config (a ∷ b ∷ []) e = rw e refl
lower_strategy_twice config (a ∷ b ∷ c ∷ []) e = rw e refl
lower_strategy_twice config (a ∷ b ∷ c ∷ d ∷ rest) e = rw (e, to_lower_twice d) refl

-- The rate limit strategy is "spool" or "drop", whatever the file says, and is the same at the next
-- reading, which leaves the state as it is.
pub rate_limit_strategy_config_known :
    (sys : ConfigSystem) (s s' : ConfigState) (v : Bytes)
    → rate_limit_strategy_config sys s ≡ done (v, s')
    → ((v ≡ codes "spool") ⊎ (v ≡ codes "drop"))
      × (rate_limit_strategy_config sys s' ≡ done (v, s'))
unfolding rate_limit_strategy_config
rate_limit_strategy_config_known sys s s' v e =
    let (t, ran, e') = >>=-eq-done (initialize_config sys s) _ e in
    let value : known_strategy (str_value 3 (lower_strategy t.config)) ≡ v = cc in
    let state : (record t { config = lower_strategy t.config }) ≡ s' = cc in
    let again =
      initialized_stays sys (record t { config = lower_strategy t.config })
        (unfold lower_strategy in initialize_config_marks sys s t ran) in
    (
      rw (sym value) (known_strategy_known (str_value 3 (lower_strategy t.config))),
      rw (sym state, again, lower_strategy_twice t.config t.config.str_values refl, value) refl,
    )
