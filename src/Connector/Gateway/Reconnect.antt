-- ===== src/Connector/Gateway/Reconnect.antt =====
-- connector/connector/gateway_client.py: how long the client waits before it connects again.
use tri_onyx.Base.{ℕ, zero, suc, ◌*◌, ◌^◌, ◌≤◌, min, List, [], ◌∷◌, All, ◌≡◌, refl, ap, ◌∙◌, arith}
use native.Mathlib.Nat.{two-pow-succ}
use tri_onyx.Connector.Gateway.{
  Attempt, refused, lost, closed, initial_backoff, max_backoff, backoff_factor, connect_loop,
}

-- A wait that is neither shorter than the first nor longer than a minute.
abbrev pub IsWait : ℕ → Type 0
IsWait w = (initial_backoff ≤ w) × (w ≤ max_backoff)

waits-IsWait :
    (backoff : ℕ) (attempts : List Attempt)
    → IsWait backoff
    → All IsWait (connect_loop backoff attempts)
unfolding connect_loop
waits-IsWait backoff [] h = tt
waits-IsWait backoff (refused ∷ attempts) (low, high) = (
  (low, high),
  waits-IsWait (min (backoff * backoff_factor) max_backoff) attempts
      (omega (arith, low, high), omega arith),
)
waits-IsWait backoff (lost ∷ attempts) h = (
  (omega arith, omega arith),
  waits-IsWait (min (initial_backoff * backoff_factor) max_backoff) attempts
      (omega arith, omega arith),
)
waits-IsWait backoff (closed ∷ attempts) h =
    waits-IsWait initial_backoff attempts (omega arith, omega arith)

abbrev pub refusals : ℕ → List Attempt
refusals zero = []
refusals (suc n) = refused ∷ refusals n

-- The waits after the failures number k, k + 1 and so on: they double up to a minute.
abbrev pub doubling : ℕ → ℕ → List ℕ
doubling k zero = []
doubling k (suc n) = min (initial_backoff * 2 ^ k) max_backoff ∷ doubling (suc k) n

doubles :
    (k n backoff : ℕ)
    → backoff ≡ min (initial_backoff * 2 ^ k) max_backoff
    → connect_loop backoff (refusals n) ≡ doubling k n
unfolding connect_loop
doubles k zero backoff h = refl
doubles k (suc n) backoff h =
    ap (λ b. b ∷ connect_loop (min (backoff * backoff_factor) max_backoff) (refusals n)) h
    ∙ ap (λ ws. min (initial_backoff * 2 ^ k) max_backoff ∷ ws)
        (doubles (suc k) n (min (backoff * backoff_factor) max_backoff)
          (omega (arith, h, two-pow-succ k)))

-- However the connections go, the client waits at least a second and at most a minute before it
-- connects again after a failure; and while the gateway refuses it, the waits are 1, 2, 4, ... seconds,
-- each twice the one before it, up to a minute.
pub reconnect_waits :
    ((attempts : List Attempt) → All IsWait (connect_loop initial_backoff attempts))
    × ((n : ℕ) → connect_loop initial_backoff (refusals n) ≡ doubling 0 n)
reconnect_waits = (
  λ attempts. waits-IsWait initial_backoff attempts (omega arith, omega arith),
  λ n. doubles 0 n initial_backoff (omega arith),
)
