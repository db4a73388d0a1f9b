-- ===== src/Mcp/Limiter.antt =====
-- mcp_server/mcp_server/auth.py, `LoginRateLimiter`: a lockout for each address and a global delay.
-- `self.clock()` is the argument `now` of each call. `max_tracked_ips` keeps its default, which is
-- positive; at 0 the loop of `sweep` ends here on the empty table, where `min` raises in Python.
pub mod Bounds
pub mod Lockout
use tri_onyx.Base.{
  ℕ, zero, suc, ◌+◌, ◌-◌, ◌*◌, ◌^◌, min, String, Bool, true, false, ◌&&◌, List, [], ◌∷◌, Option,
  none, some, ltb, leb, if◌then◌else◌, length, String_eq, second,
}
use tri_onyx.Dict.{Dict, get, put, remove, remove_all, select, evict_least}

pub record IpState : Type 0 where
  pub failures : ℕ
  pub locked_until : ℕ
  pub last_failure : ℕ

abbrev pub fresh_ip : IpState
fresh_ip = record { failures = 0; locked_until = 0; last_failure = 0 }

pub record Limiter : Type 0 where
  pub max_failures : ℕ
  pub lockout : ℕ
  pub global_threshold : ℕ
  pub global_backoff_max : ℕ
  pub max_tracked_ips : ℕ
  pub ips : Dict String IpState
  pub global_failures : ℕ
  pub global_reset_at : ℕ

abbrev pub ip_state : Option IpState → IpState
ip_state none = fresh_ip
ip_state (some st) = st

unfoldable pub failures : String → Limiter → ℕ
failures ip l = (ip_state (get ip l.ips)).failures

-- The seconds left on the lockout; an elapsed lock is forgotten.
unfoldable pub locked_for : String → ℕ → Limiter → ℕ × Limiter
locked_for ip now l = elim (get ip l.ips) [
  | none ↦ (0, l)
  | some st ↦
      if leb st.locked_until now
      then (0, (if ltb 0 st.locked_until then record l { ips = remove ip l.ips } else l))
      else (st.locked_until - now, l)
]

unfoldable pub reset_if_due : ℕ → Limiter → Limiter
reset_if_due now l =
    if ltb 0 l.global_reset_at && leb l.global_reset_at now
    then record l { global_failures = 0; global_reset_at = 0 }
    else l

unfoldable pub backoff : ℕ → ℕ → ℕ
backoff excess most = if leb excess 0 then 0 else min (2 ^ min excess 16 * second) most

unfoldable pub global_delay : ℕ → Limiter → ℕ × Limiter
unfolding reset_if_due backoff
global_delay now l =
    let l' = reset_if_due now l in
    (backoff (l'.global_failures - l'.global_threshold) l'.global_backoff_max, l')

unfoldable pub is_stale : ℕ → ℕ → IpState → Bool
is_stale now lockout st = leb st.locked_until now && ltb lockout (now - st.last_failure)

unfoldable pub without_stale : ℕ → Limiter → Dict String IpState
without_stale now l = remove_all (select (λ _ st. is_stale now l.lockout st) l.ips) l.ips

-- `while len(self._ips) >= self.max_tracked_ips: …` evicts by the last failure.
unfoldable pub sweep : ℕ → Limiter → Limiter
sweep now l =
    let kept = without_stale now l in
    record l { ips = evict_least (λ st. st.last_failure) l.max_tracked_ips (length kept) kept }

-- One more failure for an address, and its lock once there are `max_failures`.
unfoldable pub failed_again : ℕ → ℕ → ℕ → IpState → IpState
failed_again most lockout now st = record {
  failures = st.failures + 1;
  last_failure = now;
  locked_until = if leb most (st.failures + 1) then now + lockout else st.locked_until;
}

unfoldable pub record_failure : String → ℕ → Limiter → Limiter
record_failure ip now l =
    let swept = sweep now l in
    record swept {
      ips =
          put ip (failed_again l.max_failures l.lockout now (ip_state (get ip swept.ips)))
            swept.ips;
      global_failures = l.global_failures + 1;
      global_reset_at = now + l.lockout;
    }

unfoldable pub record_success : String → Limiter → Limiter
record_success ip l = record l { ips = remove ip l.ips; global_failures = 0; global_reset_at = 0 }

-- How `RegisterRateLimitMiddleware` uses its limiter (mcp_server/mcp_server/server.py), and
-- `complete_login` for a wrong password: refused while the address is locked, else let through and
-- counted. The two clock readings are those of `locked_for` and `record_failure`.
unfoldable pub attempt : String → ℕ × ℕ → Limiter → Bool × Limiter
attempt ip (checked, recorded) l =
    let (wait, l') = locked_for ip checked l in
    if ltb 0 wait then (false, l') else (true, record_failure ip recorded l')
