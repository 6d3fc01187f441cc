-- ===== src/RateLimit.antt =====
-- src/telempostdaemon.c: the rate limiter. A burst array has one size_t counter for each minute
-- of the hour. `current_minute` is `tm_min`, below 60; a window length that passed
-- `windows_length_value_check` is below 60 (`record_window_length_config`).
pub mod Window
pub mod Update
use telemetrics_client.Base.{
  ℕ, zero, suc, ◌+◌, ◌-◌, ◌%◌, ◌^◌, ◌&&◌, Bool, true, false, not, List, ltb, leb, if◌then◌else◌,
  get_or, set,
}
use telemetrics_client.Base.Int.{ℤ, pos, negsuc, ltb_ℤ}

abbrev pub tm_rate_limit_slots : ℕ
tm_rate_limit_slots = 60

abbrev pub tm_record_counter : ℕ
tm_record_counter = 1

abbrev pub size_mod : ℕ
size_mod = 2 ^ 64

-- size_t a + b
abbrev pub add_size : ℕ → ℕ → ℕ
add_size a b = (a + b) % size_mod

-- The conversion of an int64_t to the unsigned type with which it is compared.
abbrev pub to_size : ℤ → ℕ
to_size (pos n) = n
to_size (negsuc n) = size_mod - suc n

unfoldable pub burst_limit_enabled : ℤ → Bool
burst_limit_enabled burst_limit = ltb_ℤ (negsuc 0) burst_limit

-- The loop over `rounds` slots from `i`; `none` is its `return false`, else it returns the count.
-- `count` is updated before the test in each round, as in the source.
unfoldable pub count_slots : ℕ → ℕ → List ℕ → ℕ → ℕ → ℕ × Bool
count_slots zero i array inc count = (count, true)
count_slots (suc rounds) i array inc count =
    let slot = get_or array (i % tm_rate_limit_slots) 0 in
    let rest = count_slots rounds (i + 1) array inc (add_size count slot) in
    if leb (size_mod - 1) (add_size slot inc) then (add_size count slot, false) else rest

unfoldable pub window_start : ℕ → ℕ → ℕ
window_start current_minute window_length =
    (tm_rate_limit_slots + current_minute + 1 - window_length) % tm_rate_limit_slots

unfoldable pub rate_limit_check : ℕ → ℤ → ℕ → List ℕ → ℕ → Bool
unfolding count_slots window_start
rate_limit_check current_minute burst_limit window_length array inc =
    let (count, fits) =
      count_slots window_length (window_start current_minute window_length) array inc 0 in
    fits && not (ltb (to_size burst_limit) (add_size count inc))

-- The loop that sets `rounds` slots to 0 from `i` on.
unfoldable pub clear_slots : ℕ → ℕ → List ℕ → List ℕ
clear_slots zero i array = array
clear_slots (suc rounds) i array =
    clear_slots rounds (i + 1) (set array (i % tm_rate_limit_slots) 0)

unfoldable pub rate_limit_update : ℕ → ℕ → List ℕ → ℕ → List ℕ
unfolding clear_slots
rate_limit_update current_minute window_length array inc =
    clear_slots (tm_rate_limit_slots - window_length) (current_minute + 1)
      (set array current_minute (add_size (get_or array current_minute 0) inc))
