-- ===== src/Mcp/Bridge/Asked.antt =====
-- What a call of `ask` finds, and what the call that started a turn is told.
use tri_onyx.Base.{
  ℕ, ◌-◌, String, true, false, List, [], ◌++◌, none, some, ◌≡◌, refl, ap, ◌∙◌, inl, inr,
  Option-cases, ℕ_eq, String_eq, Key_eq, All, length,
}
use tri_onyx.Dict.{get}
use tri_onyx.Dict.Laws.{get-put_self}
use tri_onyx.Mcp.Bridge.{
  TextLibrary, Key, sent, Frame, result, Turn, unsettled, replied, join, Bridge, update,
  on_outbound,
}
use tri_onyx.Mcp.Bridge.Calls.{TurnStatus, status, told, settled, start_turn, ask_join, ask_done}
use tri_onyx.Mcp.Bridge.Swallowed.{Run, IsRun, IsMore, feed, feed_runs}
use tri_onyx.Mcp.Bridge.Resync.{text_of, texts_of, answers_own_texts}

get-update :
    (id : ℕ) (f : Turn → Turn) (t : Turn) (b : Bridge)
    → get id b.heap ≡ some t
    → get id (update id f b).heap ≡ some (f t)
unfolding update
get-update id f t b e = rw (e, update) (get-put_self id (f t) b.heap)

turns-update : (id : ℕ) (f : Turn → Turn) (b : Bridge) → (update id f b).turns ≡ b.turns
unfolding update
turns-update id f b = elim (Option-cases (get id b.heap)) [
  | inl e ↦ rw (e, update)
  | inr (t, e) ↦ rw (e, update)
]

-- The turn that a call starts.
abbrev pub started : TextLibrary → Key → ℕ → String → ℕ → Turn
started lib key hard_timeout message now = record {
  future = unsettled;
  key = key;
  started_at = now;
  hard_timeout = hard_timeout;
  message = lib.echo (lib.strip message);
  texts = [];
  phase = sent;
  tool_name = "";
  finished_at = none;
  waiters = 1;
  checks = 1;
  watching = true;
}

module _ (lib : TextLibrary) (key : Key) (hard_timeout : ℕ) (message : String) (now id : ℕ)
    (b : Bridge) where
  abbrev pub asked : Bridge
  asked = ask_join id (start_turn lib key hard_timeout message now id b)

  asked-turn : get id asked.heap ≡ some (started lib key hard_timeout message now)
  unfolding start_turn ask_join
  asked-turn =
      get-update id _ _ (start_turn lib key hard_timeout message now id b)
        (get-put_self id _ b.heap)

  asked-current : get key asked.turns ≡ some id
  unfolding start_turn ask_join
  asked-current =
      ap (get key) (turns-update id _ (start_turn lib key hard_timeout message now id b))
      ∙ get-put_self key id b.turns

  abandoned-asked : asked.abandoned ≡ b.abandoned
  unfolding start_turn ask_join update
  abandoned-asked = rw (get-put_self id, update)

replied_done :
    (key : Key) (id later : ℕ) (t : Turn) (reply : String) (b : Bridge)
    → get id b.heap ≡ some t
    → t.future ≡ replied reply
    → (ask_done key id later b).0
      ≡ some (told (status false reply false later (record t { waiters = t.waiters - 1 })))
unfolding ask_done settled
replied_done key id later t reply b stored e = rw (
  get-update id (λ (u : Turn). record u { waiters = u.waiters - 1 }) t b stored,
  ask_done,
  e,
  settled,
)

module _ (lib : TextLibrary) (key : Key) (hard_timeout : ℕ) (message : String) (now id : ℕ)
    (b : Bridge) where
  -- A call starts a turn on a key on which earlier turns were given up while they still ran. Once the
  -- frames of those and then its own have come, the call is told its own frames' texts, joined, as a
  -- reply that is neither pending nor stale.
  pub ask_told_own_texts :
      (rs : List Run) (stamps : List ℕ) (body : List (Frame × ℕ)) (content : String)
      (ended later : ℕ)
      → get key b.abandoned ≡ some stamps
      → length rs ≡ length stamps
      → All IsRun rs
      → All IsMore body
      → (s : TurnStatus) × ((ask_done key id later (
            on_outbound lib key (result content) ended (
              feed lib key body
                (feed_runs lib key rs (asked lib key hard_timeout message now id b))))).0
          ≡ some (told s))
        × (s.reply ≡ lib.strip (join (texts_of lib key body ++ text_of lib key (result content))))
        × (s.pending ≡ false)
        × (s.stale ≡ false)
  unfolding status
  ask_told_own_texts rs stamps body content ended later e n runs all =
      let q = asked lib key hard_timeout message now id b in
      let (t', here, outcome) =
        answers_own_texts lib key rs stamps body content ended id
          (started lib key hard_timeout message now) q
          (ap (get key) (abandoned-asked lib key hard_timeout message now id b) ∙ e) n runs
          (asked-current lib key hard_timeout message now id b)
          (asked-turn lib key hard_timeout message now id b) refl refl all in
      (_, replied_done key id later t' _ _ here outcome, refl, refl, refl)
