-- ===== src/Mcp/Bridge/Swallowed.antt =====
-- gateway_bridge.py, `_swallow_abandoned`: the frames of turns that were given up.
use tri_onyx.Base.{
  ℕ, true, false, List, [], ◌∷◌, ◌≡◌, refl, ap, ◌∙◌, arith, ℕ_eq, String_eq, Key_eq, All, length,
}
use tri_onyx.Dict.{get}
use tri_onyx.Dict.Laws.{get-put_self, get-remove_self}
use tri_onyx.Mcp.Bridge.{
  TextLibrary, Key, Frame, Bridge, stamps_of, is_terminal, pop_stamp, swallow_abandoned,
  on_outbound,
}

-- The frames that the gateway sends for one prompt: those before the terminal one, and that one.
pub record Run : Type 0 where
  pub body : List (Frame × ℕ)
  pub last : Frame
  pub ended : ℕ

abbrev pub IsMore : Frame × ℕ → Type 0
IsMore (frame, now) = is_terminal frame ≡ false

pub record IsRun (r : Run) : Type 0 where
  pub more : All IsMore r.body
  pub terminal : is_terminal r.last ≡ true

module _ (lib : TextLibrary) (key : Key) where
  unfoldable pub feed : List (Frame × ℕ) → Bridge → Bridge
  unfolding on_outbound
  feed [] b = b
  feed ((frame, now) ∷ frames) b = feed frames (on_outbound lib key frame now b)

  unfoldable pub feed_run : Run → Bridge → Bridge
  unfolding feed
  feed_run r b = on_outbound lib key r.last r.ended (feed r.body b)

  unfoldable pub feed_runs : List Run → Bridge → Bridge
  unfolding feed_run
  feed_runs [] b = b
  feed_runs (r ∷ rs) b = feed_runs rs (feed_run r b)

  -- One abandonment at least is outstanding.
  more_swallowed :
      (frame : Frame) (now s : ℕ) (ss : List ℕ) (b : Bridge)
      → stamps_of (get key b.abandoned) ≡ s ∷ ss
      → is_terminal frame ≡ false
      → on_outbound lib key frame now b ≡ b
  unfolding on_outbound swallow_abandoned
  more_swallowed frame now s ss b e more = rw (e, on_outbound, swallow_abandoned, more)

  body_swallowed :
      (frames : List (Frame × ℕ)) (s : ℕ) (ss : List ℕ) (b : Bridge)
      → stamps_of (get key b.abandoned) ≡ s ∷ ss
      → All IsMore frames
      → feed frames b ≡ b
  unfolding feed
  body_swallowed [] s ss b e h = refl
  body_swallowed ((frame, now) ∷ frames) s ss b e (more, h) =
      ap (feed frames) (more_swallowed frame now s ss b e more) ∙ body_swallowed frames s ss b e h

  last_swallowed :
      (frame : Frame) (now s : ℕ) (ss : List ℕ) (b : Bridge)
      → stamps_of (get key b.abandoned) ≡ s ∷ ss
      → is_terminal frame ≡ true
      → on_outbound lib key frame now b ≡ pop_stamp key ss b
  unfolding on_outbound swallow_abandoned
  last_swallowed frame now s ss b e last = rw (e, on_outbound, swallow_abandoned, last)

  run_swallowed :
      (r : Run) (s : ℕ) (ss : List ℕ) (b : Bridge)
      → stamps_of (get key b.abandoned) ≡ s ∷ ss
      → IsRun r
      → feed_run r b ≡ pop_stamp key ss b
  unfolding feed_run
  run_swallowed r s ss b e h =
      ap (on_outbound lib key r.last r.ended) (body_swallowed r.body s ss b e h.more)
      ∙ last_swallowed r.last r.ended s ss b e h.terminal

  stamps-pop_stamp :
      (ss : List ℕ) (b : Bridge) → stamps_of (get key (pop_stamp key ss b).abandoned) ≡ ss
  unfolding pop_stamp
  stamps-pop_stamp [] b = ap stamps_of (get-remove_self key b.abandoned)
  stamps-pop_stamp (s ∷ ss) b = ap stamps_of (get-put_self key (s ∷ ss) b.abandoned)

  rest-pop_stamp :
      (ss : List ℕ) (b : Bridge)
      → ((pop_stamp key ss b).heap ≡ b.heap) × ((pop_stamp key ss b).turns ≡ b.turns)
  unfolding pop_stamp
  rest-pop_stamp [] b = (refl, refl)
  rest-pop_stamp (s ∷ ss) b = (refl, refl)

  -- The frames of the turns that were abandoned change no turn, and leave no abandonment outstanding.
  pub resynchronised :
      (rs : List Run) (ss : List ℕ) (b : Bridge)
      → stamps_of (get key b.abandoned) ≡ ss
      → length rs ≡ length ss
      → All IsRun rs
      → (stamps_of (get key (feed_runs rs b).abandoned) ≡ [])
        × ((feed_runs rs b).heap ≡ b.heap)
        × ((feed_runs rs b).turns ≡ b.turns)
  unfolding feed_runs
  resynchronised [] [] b e n h = (e, refl, refl)
  resynchronised [] (s ∷ ss) b e n h = absurd (omega (arith, n))
  resynchronised (r ∷ rs) [] b e n h = absurd (omega (arith, n))
  resynchronised (r ∷ rs) (s ∷ ss) b e n (h, hs) =
      let popped = run_swallowed r s ss b e h in
      let b' = pop_stamp key ss b in
      let (none_left, same_heap, same_turns) =
        resynchronised rs ss b' (stamps-pop_stamp ss b) (omega (arith, n)) hs in
      let (heap', turns') = rest-pop_stamp ss b in
      (
        ap (λ c. stamps_of (get key (feed_runs rs c).abandoned)) popped ∙ none_left,
        ap (λ c. (feed_runs rs c).heap) popped ∙ same_heap ∙ heap',
        ap (λ c. (feed_runs rs c).turns) popped ∙ same_turns ∙ turns',
      )
