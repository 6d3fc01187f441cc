-- ===== src/Checks/Limits.antt =====
-- The rate limiter and the classification check at concrete inputs.
use telemetrics_client.Base.{
  ℕ, ◌+◌, ◌-◌, ◌%◌, ◌≤◌, ◌≡◌, ◌↔◌, refl, true, false, List, [], if◌then◌else◌, leb, ◌==◌, get_or,
  replicate, set, length, arith,
}
use telemetrics_client.Base.Bytes.{codes}
use telemetrics_client.Base.Int.{pos, negsuc}
use telemetrics_client.Base.Run.{done, fault}
use telemetrics_client.Base.{some}
use telemetrics_client.Common.{max_class_length}
use telemetrics_client.RateLimit.Update.{update-get}
use telemetrics_client.RateLimit.Window.{recent, check_iff_recent}
use telemetrics_client.RateLimit.{add_size, rate_limit_check, rate_limit_update}
use telemetrics_client.Util.Classification.{parts, IsThreeParts, validate_iff_parts}
use telemetrics_client.Util.{validate_classification}

-- Seven records three minutes before minute 1, across the turn of the hour.
abbrev hour : List ℕ
hour = set (replicate 60 0) 58 7

check_wraps : rate_limit_check 1 (pos 8) 4 hour 1 ≡ true
unfolding rate_limit_check
check_wraps = refl

check_refuses : rate_limit_check 1 (pos 7) 4 hour 1 ≡ false
unfolding rate_limit_check
check_refuses = refl

-- A negative limit is converted to a large unsigned number.
check_negative : rate_limit_check 1 (negsuc 0) 4 hour 1 ≡ true
unfolding rate_limit_check
check_negative = refl

check_iff_recent_example : (rate_limit_check 1 (pos 8) 4 hour 1 ≡ true) ↔ (recent 1 4 hour + 1 ≤ 8)
check_iff_recent_example =
    check_iff_recent 1 8 4 1 hour (omega arith) (omega arith) (unfold recent in omega arith)

update-get_example :
    get_or (rate_limit_update 1 4 hour 1) 58 0
    ≡ (if leb 4 ((1 + 60 - 58) % 60) then 0 else if ◌==◌ 1 58 then add_size 7 1 else 7)
update-get_example = update-get 1 4 1 58 hour (omega arith) (omega arith) refl (omega arith)

classification_good : validate_classification (some (codes "org.clearlinux/hello/world")) ≡ done 0
unfolding validate_classification
classification_good = refl

classification_empty : validate_classification (some []) ≡ fault
unfolding validate_classification
classification_empty = refl

validate_iff_parts_example :
    (validate_classification (some (codes "a/b/c")) ≡ done 0)
    ↔ ((length (codes "a/b/c") ≤ max_class_length) × IsThreeParts (parts (codes "a/b/c")))
validate_iff_parts_example = validate_iff_parts b'a' (codes "/b/c")
