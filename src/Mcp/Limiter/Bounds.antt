-- ===== src/Mcp/Limiter/Bounds.antt =====
-- The limiter's table and delay stay within their configured bounds.
use native.Mathlib.Nat.{pow-suc, le_refl}
use tri_onyx.Base.{
  min, ℕ, zero, suc, ◌-◌, ◌≤◌, ◌<◌, String, length, ◌≡◌, ◌↔◌, arith, String_eq, ◌^◌,
}
use tri_onyx.Dict.{get}
use tri_onyx.Dict.Laws.{length-put, length-evict_least}
use tri_onyx.Mcp.Limiter.{
  Limiter, sweep, without_stale, record_failure, global_delay, backoff, reset_if_due, failed_again,
  ip_state,
}

-- Recording a failure never leaves more addresses than a positive cap, whatever the table held.
pub record_failure_bounded :
    (ip : String) (now : ℕ) (l : Limiter)
    → 0 < l.max_tracked_ips
    → length (record_failure ip now l).ips ≤ l.max_tracked_ips
unfolding record_failure sweep
record_failure_bounded ip now l pos = omega (
  arith,
  length-put ip (failed_again l.max_failures l.lockout now (ip_state (get ip (sweep now l).ips)))
      (sweep now l).ips,
  length-evict_least (λ st. st.last_failure) l.max_tracked_ips (length (without_stale now l))
      (without_stale now l) pos (le_refl _),
)

pow_pos : (n : ℕ) → 0 < 2 ^ n
pow_pos zero = omega arith
pow_pos (suc n) = rw pow-suc (omega (arith, pow_pos n))

backoff_bounds :
    (failed threshold most : ℕ)
    → 0 < most
    → (backoff (failed - threshold) most ≤ most)
      × ((backoff (failed - threshold) most ≡ 0) ↔ (failed ≤ threshold))
unfolding backoff
backoff_bounds failed threshold most pos = ground (arith, pow_pos (min (failed - threshold) 16))

reset_if_due-limits :
    (now : ℕ) (l : Limiter)
    → ((reset_if_due now l).global_backoff_max ≡ l.global_backoff_max)
      × ((reset_if_due now l).global_threshold ≡ l.global_threshold)
unfolding reset_if_due
reset_if_due-limits now l = ground arith

-- The global delay is at most its cap, which is positive, so it can slow the operator down but not lock him out; it
-- is 0 exactly while the failures since the last reset are within the threshold.
global_delay_bounds :
    (now : ℕ) (l : Limiter)
    → 0 < l.global_backoff_max
    → ((global_delay now l).0 ≤ l.global_backoff_max)
      × (((global_delay now l).0 ≡ 0)
          ↔ ((global_delay now l).1.global_failures ≤ l.global_threshold))
unfolding global_delay
global_delay_bounds now l pos =
    let l' = reset_if_due now l in
    ground (
      arith,
      backoff_bounds l'.global_failures l'.global_threshold l'.global_backoff_max,
      reset_if_due-limits now l,
    )
