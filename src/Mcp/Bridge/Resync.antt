-- ===== src/Mcp/Bridge/Resync.antt =====
-- The answer of a turn: the texts of its own frames, also after turns that were given up.
use tri_onyx.Base.{
  ℕ, String, true, false, List, [], ◌∷◌, ◌++◌, some, ◌==◌, if◌then◌else◌, ◌≡◌, refl, sym, ap, ◌∙◌,
  arith, inl, inr, Bool-cases, Option-cases, ℕ_eq, String_eq, Key_eq, All, length, ltb,
}
use tri_onyx.Dict.{get, put}
use tri_onyx.Dict.Laws.{get-put_self}
use tri_onyx.Mcp.Bridge.{
  TextLibrary, Key, Frame, step, typing, text, result, error, Turn, Phase, starting, ready, tool,
  writing, rank, unsettled, replied, is_done, add_last, join, add_text, note_phase, finish, settle,
  receive, receive_open, Bridge, update, stamps_of, is_terminal, swallow_abandoned, deliver,
  on_outbound,
}
use tri_onyx.Mcp.Bridge.Swallowed.{Run, IsRun, IsMore, feed, feed_runs, resynchronised}

module _ (lib : TextLibrary) (key : Key) where
  -- The texts that the frames of a turn stream.
  abbrev pub text_of : Frame → List String
  text_of (text content) = if content == "" then [] else content ∷ []
  text_of (result content) = if content == "" then [] else content ∷ []
  text_of (step _ _) = []
  text_of (typing _) = []
  text_of (error _) = []

  abbrev pub texts_of : List (Frame × ℕ) → List String
  texts_of [] = []
  texts_of ((frame, now) ∷ frames) = text_of frame ++ texts_of frames

  add_last-append : (x : String) (xs : List String) → add_last x xs ≡ xs ++ (x ∷ [])
  add_last-append x [] = refl
  add_last-append x (y ∷ ys) = ap (λ zs. y ∷ zs) (add_last-append x ys)

  append_nil : (xs : List String) → xs ++ [] ≡ xs
  append_nil [] = refl
  append_nil (x ∷ xs) = ap (λ zs. x ∷ zs) (append_nil xs)

  append_assoc : (xs ys zs : List String) → (xs ++ ys) ++ zs ≡ xs ++ (ys ++ zs)
  append_assoc [] ys zs = refl
  append_assoc (x ∷ xs) ys zs = ap (λ ws. x ∷ ws) (append_assoc xs ys zs)

  texts-add_text :
      (content : String) (t : Turn)
      → (add_text content t).texts ≡ t.texts ++ (if content == "" then [] else content ∷ [])
  unfolding add_text
  texts-add_text content t = elim (Bool-cases (content == "")) [
    | inl empty ↦ rw (empty, add_text) (sym (append_nil t.texts))
    | inr full ↦ rw (full, add_text) (add_last-append content t.texts)
  ]

  future-add_text : (content : String) (t : Turn) → (add_text content t).future ≡ t.future
  unfolding add_text
  future-add_text content t = elim (Bool-cases (content == "")) [
    | inl empty ↦ rw (empty, add_text)
    | inr full ↦ rw (full, add_text)
  ]

  note_phase-keeps :
      (phase : Phase) (name : String) (t : Turn)
      → ((note_phase phase name t).texts ≡ t.texts) × ((note_phase phase name t).future ≡ t.future)
  unfolding note_phase
  note_phase-keeps phase name t = elim (Bool-cases (ltb (rank phase) (rank t.phase))) [
    | inl behind ↦ rw (behind, note_phase) (refl, refl)
    | inr ahead ↦ rw (ahead, note_phase) (refl, refl)
  ]

  -- A frame that does not end the turn adds its text and leaves the turn unsettled.
  open_more :
      (frame : Frame) (now : ℕ) (t : Turn)
      → is_terminal frame ≡ false
      → ((receive_open lib frame now t).texts ≡ t.texts ++ text_of frame)
        × ((receive_open lib frame now t).future ≡ t.future)
  unfolding receive_open
  open_more (step step_type name) now t more = elim (Bool-cases (step_type == "tool_use")) [
    | inl called ↦
        let kept = note_phase-keeps tool name t in
        rw (called, receive_open) (kept.0 ∙ sym (append_nil t.texts), kept.1)
    | inr other ↦ rw (other, receive_open) (sym (append_nil t.texts), refl)
  ]
  open_more (typing true) now t more =
      let kept = note_phase-keeps starting "" t in (kept.0 ∙ sym (append_nil t.texts), kept.1)
  open_more (typing false) now t more =
      let kept = note_phase-keeps ready "" t in (kept.0 ∙ sym (append_nil t.texts), kept.1)
  open_more (text content) now t more =
      let kept = note_phase-keeps writing "" t in
      (
        texts-add_text content (note_phase writing "" t)
            ∙ ap (λ xs. xs ++ text_of (text content)) kept.0,
        future-add_text content (note_phase writing "" t) ∙ kept.1,
      )
  open_more (result content) now t more = absurd (ground (arith, more))
  open_more (error e) now t more = absurd (ground (arith, more))

  unsettled_open : (t : Turn) → t.future ≡ unsettled → is_done t ≡ false
  unsettled_open t h = ap (λ f. elim f [ unsettled ↦ false | _ ↦ true ]) h

  receive_running :
      (frame : Frame) (now : ℕ) (t : Turn)
      → t.future ≡ unsettled
      → receive lib frame now t ≡ receive_open lib frame now t
  unfolding receive
  receive_running frame now t h = rw (unsettled_open t h)

  future-settle : (now : ℕ) (t : Turn) → (settle now t).future ≡ t.future
  unfolding settle
  future-settle now t = elim (Option-cases t.finished_at) [
    | inl e ↦ rw (e, settle)
    | inr (at, e) ↦ rw (e, settle)
  ]

  finished :
      (now : ℕ) (t : Turn)
      → t.future ≡ unsettled
      → (finish lib now t).future ≡ replied (lib.strip (join t.texts))
  unfolding finish
  finished now t h = rw (unsettled_open t h) (future-settle now _)

  -- No abandonment is outstanding, and the turn of the key has not settled.
  record Serves (id : ℕ) (t : Turn) (b : Bridge) : Type 0 where
    in_step : stamps_of (get key b.abandoned) ≡ []
    current : get key b.turns ≡ some id
    stored : get id b.heap ≡ some t
    running : t.future ≡ unsettled

  not_swallowed :
      (frame : Frame) (b : Bridge)
      → stamps_of (get key b.abandoned) ≡ []
      → swallow_abandoned key frame b ≡ (false, b)
  unfolding swallow_abandoned
  not_swallowed frame b e = rw (e, swallow_abandoned)

  reached :
      (id : ℕ) (t : Turn) (b : Bridge) (frame : Frame) (now : ℕ)
      → Serves id t b
      → deliver lib key frame now b ≡ record b { heap = put id (receive lib frame now t) b.heap }
  unfolding deliver update
  reached id t b frame now h = rw (h.current, deliver, h.stored, update)

  delivered :
      (id : ℕ) (t : Turn) (b : Bridge) (frame : Frame) (now : ℕ)
      → Serves id t b
      → on_outbound lib key frame now b
        ≡ record b { heap = put id (receive_open lib frame now t) b.heap }
  unfolding on_outbound
  delivered id t b frame now h = rw (not_swallowed frame b h.in_step) (
      reached id t b frame now h
      ∙ ap (λ (u : Turn). record b { heap = put id u b.heap })
          (receive_running frame now t h.running))

  still_unanswered :
      (id : ℕ) (t : Turn) (b : Bridge) (frame : Frame) (now : ℕ)
      → Serves id t b
      → is_terminal frame ≡ false
      → Serves id (receive_open lib frame now t) (on_outbound lib key frame now b)
  still_unanswered id t b frame now h more =
      let e = delivered id t b frame now h in
      record {
        in_step = ap (λ c. stamps_of (get key c.abandoned)) e ∙ h.in_step;
        current = ap (λ c. get key c.turns) e ∙ h.current;
        stored = ap (λ c. get id c.heap) e ∙ get-put_self id (receive_open lib frame now t) b.heap;
        running = (open_more frame now t more).1 ∙ h.running;
      }

  -- What a turn is after the body of its run.
  after_body :
      (frames : List (Frame × ℕ)) (id : ℕ) (t : Turn) (b : Bridge)
      → Serves id t b
      → All IsMore frames
      → (t' : Turn) × Serves id t' (feed lib key frames b) × (t'.texts ≡ t.texts ++ texts_of frames)
  unfolding feed
  after_body [] id t b h all = (t, h, sym (append_nil t.texts))
  after_body ((frame, now) ∷ frames) id t b h (more, all) =
      let t1 = receive_open lib frame now t in
      let b1 = on_outbound lib key frame now b in
      let (t', h', texts) =
        after_body frames id t1 b1 (still_unanswered id t b frame now h more) all in
      (
        t',
        h',
        texts
            ∙ ap (λ xs. xs ++ texts_of frames) (open_more frame now t more).0
            ∙ append_assoc t.texts (text_of frame) (texts_of frames),
      )

  own_answer :
      (body : List (Frame × ℕ)) (content : String) (ended id : ℕ) (t : Turn) (b : Bridge)
      → Serves id t b
      → All IsMore body
      → (t' : Turn) × (get id
            (on_outbound lib key (result content) ended (feed lib key body b)).heap
          ≡ some t')
        × (t'.future
            ≡ replied (lib.strip (join ((t.texts ++ texts_of body) ++ text_of (result content)))))
  unfolding receive_open
  own_answer body content ended id t b h all =
      let (t1, h1, texts) = after_body body id t b h all in
      let e = delivered id t1 (feed lib key body b) (result content) ended h1 in
      let open_still = future-add_text content t1 ∙ h1.running in
      (
        receive_open lib (result content) ended t1,
        ap (λ c. get id c.heap) e ∙ get-put_self id _ (feed lib key body b).heap,
        finished ended (add_text content t1) open_still
            ∙ ap (λ xs. replied (lib.strip (join xs)))
                (texts-add_text content t1 ∙ ap (λ xs. xs ++ text_of (result content)) texts),
      )

  -- However many turns of a key were given up while they still ran: once the gateway has sent the
  -- frames of each of them up to its terminal one, the turn that now holds the key is answered by the
  -- texts of its own frames and by nothing else, whatever those earlier frames were.
  pub answers_own_texts :
      (rs : List Run) (stamps : List ℕ) (body : List (Frame × ℕ)) (content : String) (ended id : ℕ)
      (t : Turn) (b : Bridge)
      → get key b.abandoned ≡ some stamps
      → length rs ≡ length stamps
      → All IsRun rs
      → get key b.turns ≡ some id
      → get id b.heap ≡ some t
      → t.future ≡ unsettled
      → t.texts ≡ []
      → All IsMore body
      → (t' : Turn) × (get id
            (on_outbound lib key
              (result content)
              ended
              (feed lib key body (feed_runs lib key rs b))).heap
          ≡ some t')
        × (t'.future ≡ replied (lib.strip (join (texts_of body ++ text_of (result content)))))
  answers_own_texts rs stamps body content ended id t b e n runs current stored running fresh all =
      let (in_step, heap, turns) = resynchronised lib key rs stamps b (ap stamps_of e) n runs in
      let serves : Serves id t (feed_runs lib key rs b) = record {
        in_step = in_step;
        current = ap (get key) turns ∙ current;
        stored = ap (get id) heap ∙ stored;
        running = running;
      } in
      let (t', here, outcome) =
        own_answer body content ended id t (feed_runs lib key rs b) serves all in
      (
        t',
        here,
        outcome
            ∙ ap
                (λ xs.
                  replied (lib.strip (join ((xs ++ texts_of body) ++ text_of (result content)))))
                fresh,
      )
