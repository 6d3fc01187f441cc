-- ===== src/RateLimit/Update.antt =====
-- What `rate_limit_update` leaves in the array.
use telemetrics_client.Base.{
  ℕ, zero, suc, ◌+◌, ◌-◌, ◌%◌, ◌≤◌, ◌<◌, ◌≡◌, refl, ◌∙◌, List, [], ◌∷◌, ltb, leb, ◌==◌,
  if◌then◌else◌, get_or, set, length, length-set, arith,
}
use telemetrics_client.RateLimit.{
  tm_rate_limit_slots, size_mod, add_size, clear_slots, rate_limit_update,
}
use telemetrics_client.RateLimit.Window.{slot_ago, recent}

get_or-set :
    (array : List ℕ) (i j v : ℕ)
    → i < length array
    → get_or (set array i v) j 0 ≡ (if i == j then v else get_or array j 0)
get_or-set [] i j v h = absurd (omega arith)
get_or-set (x ∷ xs) zero zero v h = refl
get_or-set (x ∷ xs) zero (suc j) v h = ground arith
get_or-set (x ∷ xs) (suc i) zero v h = ground arith
get_or-set (x ∷ xs) (suc i) (suc j) v h = ground (arith, get_or-set xs i j v)

-- How many slots after slot `i % 60` slot `j` stands.
abbrev distance : ℕ → ℕ → ℕ
distance i j = (j + tm_rate_limit_slots - i % tm_rate_limit_slots) % tm_rate_limit_slots

clear_slots-get :
    (n i j : ℕ) (array : List ℕ)
    → n ≤ tm_rate_limit_slots
    → length array ≡ tm_rate_limit_slots
    → j < tm_rate_limit_slots
    → get_or (clear_slots n i array) j 0 ≡ (if ltb (distance i j) n then 0 else get_or array j 0)
unfolding clear_slots
clear_slots-get zero i j array h len hj = ground arith
clear_slots-get (suc n) i j array h len hj =
    clear_slots-get n (i + 1) j (set array (i % tm_rate_limit_slots) 0) (omega arith)
      (length-set array _ 0 ∙ len) hj
    ∙ rw (get_or-set array (i % tm_rate_limit_slots) j 0 (omega arith)) (ground arith)

pub length-clear_slots : (n i : ℕ) (array : List ℕ) → length (clear_slots n i array) ≡ length array
unfolding clear_slots
length-clear_slots zero i array = refl
length-clear_slots (suc n) i array =
    length-clear_slots n (i + 1) (set array (i % tm_rate_limit_slots) 0) ∙ length-set array _ 0

-- In an array of 60 slots, for a minute and a slot below 60 and a window of at most 60 minutes:
-- every slot of the window that ends at `minute` keeps its counter, but for the slot of `minute`
-- itself, which grows by `inc`; every slot outside the window is 0.
pub update-get :
    (minute window inc j : ℕ) (array : List ℕ)
    → minute < tm_rate_limit_slots
    → window ≤ tm_rate_limit_slots
    → length array ≡ tm_rate_limit_slots
    → j < tm_rate_limit_slots
    → get_or (rate_limit_update minute window array inc) j 0 ≡ (
        if leb window ((minute + tm_rate_limit_slots - j) % tm_rate_limit_slots)
        then 0
        else if minute == j
        then add_size (get_or array j 0) inc
        else get_or array j 0)
unfolding rate_limit_update
update-get minute window inc j array m w len hj =
    clear_slots-get (tm_rate_limit_slots - window) (minute + 1) j _ (omega arith)
      (length-set array minute _ ∙ len) hj
    ∙ rw (get_or-set array minute j (add_size (get_or array minute 0) inc) (omega arith))
        (ground arith)

recent-update :
    (minute window inc age : ℕ) (array : List ℕ)
    → minute < tm_rate_limit_slots
    → window ≤ tm_rate_limit_slots
    → length array ≡ tm_rate_limit_slots
    → age < window
    → get_or array minute 0 + inc < size_mod
    → recent minute (suc age) (rate_limit_update minute window array inc)
      ≡ recent minute (suc age) array + inc
unfolding recent
recent-update minute window inc zero array m w len h room =
    let e : slot_ago minute 0 ≡ minute = omega arith in
    rw (e, update-get minute window inc minute array m w len m) (ground arith)
recent-update minute window inc (suc age) array m w len h room =
    rw (update-get minute window inc (slot_ago minute (suc age)) array m w len (omega arith))
      (ground (arith, recent-update minute window inc age array))

-- In an array of 60 slots, for a minute below 60, a window of 1 to 60 minutes and a slot that has
-- room for the increment: after an update the window counts it, and nothing else.
pub recent-rate_limit_update :
    (minute window inc : ℕ) (array : List ℕ)
    → minute < tm_rate_limit_slots
    → window ≤ tm_rate_limit_slots
    → 0 < window
    → length array ≡ tm_rate_limit_slots
    → get_or array minute 0 + inc < size_mod
    → recent minute window (rate_limit_update minute window array inc)
      ≡ recent minute window array + inc
recent-rate_limit_update minute zero inc array m w h len room = absurd (omega arith)
recent-rate_limit_update minute (suc age) inc array m w h len room =
    recent-update minute (suc age) inc age array m w len (omega arith) room
