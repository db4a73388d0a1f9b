-- ===== src/Mcp/Limiter/Lockout.antt =====
-- The lockout of one address: how many guesses it gets, and what frees it.
use mathlib.Core.Path.{subst}
use tri_onyx.Base.{
  ap, sym, ℕ, ◌+◌, ◌-◌, ◌≤◌, ◌<◌, String, true, false, List, [], ◌∷◌, Option, none, some, length,
  if◌then◌else◌, ◌≡◌, ◌⊎◌, refl, arith, inl, inr, Option-cases, ◌∙◌, String_eq, All,
}
use tri_onyx.Dict.{Dict, get, put, select, IsDict}
use tri_onyx.Dict.Laws.{
  get-put_self, get-sweep, unless, put-IsDict, remove_all-IsDict, length-put, length-put_found,
  length-remove_all, get-remove_self, evict_least_room,
}
use tri_onyx.Mcp.Limiter.{
  IpState, Limiter, ip_state, failures, locked_for, is_stale, sweep, without_stale, record_failure,
  record_success, attempt, failed_again, global_delay,
}

ips-sweep :
    (now : ℕ) (l : Limiter)
    → length l.ips < l.max_tracked_ips
    → (sweep now l).ips ≡ without_stale now l
unfolding sweep without_stale
ips-sweep now l room =
    evict_least_room (λ st. st.last_failure) l.max_tracked_ips _ _
      (omega (arith, length-remove_all (select _ l.ips) l.ips))

abbrev new_entry : Option IpState → ℕ
new_entry none = 1
new_entry (some st) = 0

abbrev IsLive : ℕ → ℕ → Option IpState → Type 0
IsLive now lockout none = Unit
IsLive now lockout (some st) = is_stale now lockout st ≡ false

length-put_new :
    (k : String) (v : IpState) (d : Dict String IpState)
    → length (put k v d) ≤ length d + new_entry (get k d)
length-put_new k v d = by_entry (get k d) refl
  where
    by_entry : (o : Option IpState) → get k d ≡ o → length (put k v d) ≤ length d + new_entry o
    by_entry none e = length-put k v d
    by_entry (some w) e = omega (arith, length-put_found k v w d e)

length-sweep :
    (now : ℕ) (l : Limiter)
    → length l.ips < l.max_tracked_ips
    → length (sweep now l).ips ≤ length l.ips
unfolding without_stale
length-sweep now l room =
    omega (arith, ap length (ips-sweep now l room), length-remove_all (select _ l.ips) l.ips)

module _ (ip : String) (now : ℕ) (l : Limiter) where
  -- A limiter whose table has room, and whose entry for `ip` still carries a signal.
  record CanCount : Type 0 where
    dict : IsDict l.ips
    room : length l.ips < l.max_tracked_ips
    live : IsLive now l.lockout (get ip l.ips)

  get-without_stale : CanCount → get ip (without_stale now l) ≡ get ip l.ips
  unfolding without_stale
  get-without_stale c =
      get-sweep (λ _ st. is_stale now l.lockout st) ip l.ips c.dict ∙ kept (get ip l.ips) c.live
    where
      kept :
          (o : Option IpState)
          → IsLive now l.lockout o
          → unless (λ _ st. is_stale now l.lockout st) ip o ≡ o
      kept none h = refl
      kept (some st) h = rw h

  get-record_failure :
      CanCount
      → get ip (record_failure ip now l).ips
        ≡ some (failed_again l.max_failures l.lockout now (ip_state (get ip l.ips)))
  unfolding record_failure
  get-record_failure c =
      rw (ips-sweep now l c.room, get-without_stale c) (get-put_self ip _ (without_stale now l))

  record_failure-IsDict : CanCount → IsDict (record_failure ip now l).ips
  unfolding record_failure without_stale
  record_failure-IsDict c =
      rw (ips-sweep now l c.room)
        (put-IsDict ip _ (without_stale now l) (remove_all-IsDict _ l.ips c.dict))

  length-record_failure :
      CanCount → length (record_failure ip now l).ips ≤ length l.ips + new_entry (get ip l.ips)
  unfolding record_failure
  length-record_failure c =
      let swept = (sweep now l).ips in
      omega (
        arith,
        length-put_new ip (failed_again l.max_failures l.lockout now (ip_state (get ip swept)))
            swept,
        length-sweep now l c.room,
        ap new_entry (ap (get ip) (ips-sweep now l c.room) ∙ get-without_stale c),
      )

-- How many of the attempts at these times are evaluated.
pub evaluated : String → List (ℕ × ℕ) → Limiter → ℕ
evaluated ip [] l = 0
evaluated ip (now ∷ times) l =
    let (reached, l') = attempt ip now l in (if reached then 1 else 0) + evaluated ip times l'

-- Inside the window [start, start + lockout).
abbrev InWindow : ℕ → ℕ → ℕ → Type 0
InWindow start lockout now = (start ≤ now) × (now < start + lockout)

-- The entry of an address whose failures all fell into the window.
abbrev Counted : ℕ → Limiter → Option IpState → Type 0
Counted start l none = length l.ips + 1 < l.max_tracked_ips
Counted start l (some st) =
    (length l.ips < l.max_tracked_ips)
    × (start ≤ st.last_failure)
    × (((st.failures < l.max_failures) × (st.locked_until ≡ 0))
        ⊎ (start + l.lockout ≤ st.locked_until))

abbrev budget : ℕ → Option IpState → ℕ
budget most o = most - (ip_state o).failures

locked_for_locked :
    (ip : String) (now : ℕ) (l : Limiter) (st : IpState)
    → get ip l.ips ≡ some st
    → now < st.locked_until
    → locked_for ip now l ≡ (st.locked_until - now, l)
unfolding locked_for
locked_for_locked ip now l st e h = rw (e, locked_for) (ground arith)

locked_for_open :
    (ip : String) (now : ℕ) (l : Limiter)
    → (ip_state (get ip l.ips)).locked_until ≡ 0
    → locked_for ip now l ≡ (0, l)
unfolding locked_for
locked_for_open ip now l h = elim (Option-cases (get ip l.ips)) [
  | inl e ↦ rw (e, locked_for)
  | inr (st, e) ↦
      let never : st.locked_until ≡ 0 = sym (ap (λ o. (ip_state o).locked_until) e) ∙ h in
      rw (e, locked_for) (ground arith)
]

attempt_locked :
    (ip : String) (checked recorded : ℕ) (l : Limiter) (st : IpState)
    → get ip l.ips ≡ some st
    → checked < st.locked_until
    → attempt ip (checked, recorded) l ≡ (false, l)
unfolding attempt
attempt_locked ip checked recorded l st e h =
    rw (locked_for_locked ip checked l st e h) (ground arith)

attempt_open :
    (ip : String) (checked recorded : ℕ) (l : Limiter)
    → (ip_state (get ip l.ips)).locked_until ≡ 0
    → attempt ip (checked, recorded) l ≡ (true, record_failure ip recorded l)
unfolding attempt
attempt_open ip checked recorded l h = rw (locked_for_open ip checked l h)

record_failure-limits :
    (ip : String) (now : ℕ) (l : Limiter)
    → ((record_failure ip now l).lockout ≡ l.lockout)
      × ((record_failure ip now l).max_failures ≡ l.max_failures)
      × ((record_failure ip now l).max_tracked_ips ≡ l.max_tracked_ips)
unfolding record_failure sweep
record_failure-limits ip now l = (refl, refl, refl)

can_count :
    (start now : ℕ) (ip : String) (l : Limiter) (o : Option IpState)
    → get ip l.ips ≡ o
    → IsDict l.ips
    → Counted start l o
    → InWindow start l.lockout now
    → CanCount ip now l
unfolding is_stale
can_count start now ip l none e dict c w = record {
  dict = dict;
  room = omega arith;
  live = rw e tt;
}
can_count start now ip l (some st) e dict (room, late, c) w = record {
  dict = dict;
  room = room;
  live = rw e (ground arith);
}

room_for_one :
    (start : ℕ) (l : Limiter) (o : Option IpState)
    → Counted start l o
    → length l.ips + new_entry o < l.max_tracked_ips
room_for_one start l none c = c
room_for_one start l (some st) c = omega (arith, c.0)

-- What one evaluated guess leaves: one more failure in the window, and the lock at the last one.
failure_stays_in_range :
    (start now : ℕ) (ip : String) (l : Limiter) (o : Option IpState)
    → get ip l.ips ≡ o
    → CanCount ip now l
    → Counted start l o
    → InWindow start l.lockout now
    → 0 < l.max_failures
    → (ip_state o).locked_until ≡ 0
    → Counted start
        (record_failure ip now l)
        (some (failed_again l.max_failures l.lockout now (ip_state o)))
unfolding failed_again
failure_stays_in_range start now ip l o e can c w pos h =
    let size = length-record_failure ip now l can in
    let size' : length (record_failure ip now l).ips < l.max_tracked_ips =
      omega (arith, ap new_entry e, room_for_one start l o c) in
    let limits = record_failure-limits ip now l in
    (omega (arith, limits.2), w.0, ground (arith, limits.0, limits.1))

-- Inside the window an entry is locked to its end or not locked at all.
window_cases :
    (start now : ℕ) (l : Limiter) (o : Option IpState)
    → Counted start l o
    → InWindow start l.lockout now
    → ((st : IpState) × (o ≡ some st) × (now < st.locked_until))
      ⊎ (((ip_state o).locked_until ≡ 0) × (0 < l.max_failures → 0 < budget l.max_failures o))
window_cases start now l none c w = inr (refl, λ pos. omega arith)
window_cases start now l (some st) (room, late, inl c) w = inr (c.1, λ pos. omega arith)
window_cases start now l (some st) (room, late, inr c) w = inl (st, refl, omega arith)

-- Both clock readings of an attempt inside the window.
abbrev BothInWindow : ℕ → ℕ → ℕ × ℕ → Type 0
BothInWindow start lockout (checked, recorded) =
    InWindow start lockout checked × InWindow start lockout recorded

evaluated_bounded :
    (start : ℕ) (ip : String) (times : List (ℕ × ℕ)) (l : Limiter)
    → IsDict l.ips
    → 0 < l.max_failures
    → Counted start l (get ip l.ips)
    → All (BothInWindow start l.lockout) times
    → evaluated ip times l ≤ budget l.max_failures (get ip l.ips)
unfolding evaluated failed_again
evaluated_bounded start ip [] l dict pos c w = omega arith
evaluated_bounded start ip ((checked, recorded) ∷ times) l dict pos c ((w, w'), ws) =
    elim (window_cases start checked l (get ip l.ips) c w) [
      | inl (st, e, locked) ↦
          rw (attempt_locked ip checked recorded l st e locked)
            (omega (arith, evaluated_bounded start ip times l dict pos c ws))
      | inr (open_now, left) ↦
          let can = can_count start recorded ip l (get ip l.ips) refl dict c w' in
          let l' = record_failure ip recorded l in
          let limits = record_failure-limits ip recorded l in
          let next = get-record_failure ip recorded l can in
          let again =
            failure_stays_in_range start recorded ip l (get ip l.ips) refl can c w' pos open_now in
          let rest =
            evaluated_bounded start ip times l' (record_failure-IsDict ip recorded l can)
              (omega (arith, limits.1)) (subst (Counted start l') (sym next) again)
              (subst (λ k. All (BothInWindow start k) times) (sym limits.0) ws) in
          rw (attempt_open ip checked recorded l open_now)
            (omega (arith, rest, ap (budget l'.max_failures) next, limits.1, left pos))
    ]

-- If `max_failures` is positive, an address without recorded failures gets at most `max_failures` wrong guesses evaluated in any
-- window of the lockout's length, however many it sends, while the table has room for two more
-- entries.
pub attempt_budget :
    (start : ℕ) (ip : String) (times : List (ℕ × ℕ)) (l : Limiter)
    → IsDict l.ips
    → 0 < l.max_failures
    → get ip l.ips ≡ none
    → length l.ips + 1 < l.max_tracked_ips
    → All (BothInWindow start l.lockout) times
    → evaluated ip times l ≤ l.max_failures
attempt_budget start ip times l dict pos fresh room w = omega (
  arith,
  evaluated_bounded start ip times l dict pos (subst (Counted start l) (sym fresh) room) w,
  ap (budget l.max_failures) fresh,
)

-- A successful login forgets the failures of its address and the global delay.
pub record_success_clears :
    (ip : String) (now later : ℕ) (l : Limiter)
    → (locked_for ip now (record_success ip l) ≡ (0, record_success ip l))
      × ((global_delay later (record_success ip l)).0 ≡ 0)
      × (failures ip (record_success ip l) ≡ 0)
unfolding record_success failures
record_success_clears ip now later l = (
  locked_for_open ip now (record_success ip l)
      (ap (λ o. (ip_state o).locked_until) (get-remove_self ip l.ips)),
  (unfold global_delay in ground arith),
  ap (λ o. (ip_state o).failures) (get-remove_self ip l.ips),
)
