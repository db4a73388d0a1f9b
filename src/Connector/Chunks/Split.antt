-- ===== src/Connector/Chunks/Split.antt =====
-- A long message is cut into pieces that are short enough and keep its words.
use tri_onyx.Base.{
  ℕ, zero, suc, ◌≤◌, ◌<◌, List, [], ◌∷◌, ◌++◌, Option, none, some, Bool, true, false, if◌then◌else◌,
  leb, length, is_nonempty, All, ◌≡◌, refl, sym, ap, ◌∙◌, arith,
}
use mathlib.Core.List.{append-nil}
use tri_onyx.Connector.Chunks.Lists.{
  Text, take, drop, rstrip, lstrip_newlines, take-drop, length-take, length-drop, length-rstrip,
  length-lstrip, visible, visible-append, visible-rstrip, visible-lstrip,
}
use tri_onyx.Connector.Chunks.{newline, split_index, append_chunk, chunk_loop, chunk_message}
use tri_onyx.Connector.Chunks.Bounds.{split_index-IsCut}

abbrev pub join : List Text → Text
join [] = []
join (chunk ∷ chunks) = chunk ++ join chunks

module _ (is_space : ℕ → Bool) (max_len : ℕ) where
  -- Pieces of a text: none is too long or empty, and together they hold what is visible of it.
  pub record ArePieces (text : Text) (chunks : List Text) : Type 0 where
    pub short_enough : All (λ c. length c ≤ max_len) chunks
    pub not_empty : All (λ c. is_nonempty c ≡ true) chunks
    pub same_words : visible is_space (join chunks) ≡ visible is_space text

  append_chunk-short :
      (chunk : Text) (chunks : List Text)
      → length chunk ≤ max_len
      → All (λ c. length c ≤ max_len) chunks
      → All (λ c. length c ≤ max_len) (append_chunk is_space max_len chunk chunks)
  append_chunk-short [] chunks h hs = hs
  append_chunk-short (c ∷ chunk) chunks h hs = (h, hs)

  append_chunk-nonempty :
      (chunk : Text) (chunks : List Text)
      → All (λ c. is_nonempty c ≡ true) chunks
      → All (λ c. is_nonempty c ≡ true) (append_chunk is_space max_len chunk chunks)
  append_chunk-nonempty [] chunks hs = hs
  append_chunk-nonempty (c ∷ chunk) chunks hs = (refl, hs)

  join-append_chunk :
      (chunk : Text) (chunks : List Text)
      → join (append_chunk is_space max_len chunk chunks) ≡ chunk ++ join chunks
  join-append_chunk [] chunks = refl
  join-append_chunk (c ∷ chunk) chunks = refl

  -- One round: what is cut off is a piece, and the rest is cut by the rounds that follow.
  step-ArePieces :
      (text : Text) (i : ℕ) (chunks : List Text)
      → is_space newline ≡ true
      → i ≤ max_len
      → ArePieces (lstrip_newlines (drop i text)) chunks
      → ArePieces text (append_chunk is_space max_len (rstrip is_space (take i text)) chunks)
  step-ArePieces text i chunks white cut pieces =
      let chunk = rstrip is_space (take i text) in
      record {
        short_enough =
            append_chunk-short chunk chunks
              (omega (arith, length-rstrip is_space (take i text), length-take i text, cut))
              pieces.short_enough;
        not_empty = append_chunk-nonempty chunk chunks pieces.not_empty;
        same_words =
            ap (visible is_space) (join-append_chunk chunk chunks)
            ∙ visible-append is_space chunk (join chunks)
            ∙ ap (λ t. t ++ visible is_space (join chunks)) (visible-rstrip is_space (take i text))
            ∙ ap (λ t. visible is_space (take i text) ++ t)
                (pieces.same_words ∙ visible-lstrip is_space (drop i text) white)
            ∙ sym (visible-append is_space (take i text) (drop i text))
            ∙ ap (visible is_space) (take-drop i text);
      }

  abbrev pub Cuts : Text → Option (List Text) → Type 0
  Cuts text cut = (chunks : List Text) × (cut ≡ some chunks) × ArePieces text chunks

  whole-ArePieces :
      (c : ℕ) (text : Text) → length (c ∷ text) ≤ max_len → ArePieces (c ∷ text) ((c ∷ text) ∷ [])
  whole-ArePieces c text h = record {
    short_enough = (h, tt);
    not_empty = (refl, tt);
    same_words = ap (visible is_space) (append-nil (c ∷ text));
  }

  whole_or :
      (c : ℕ) (text : Text) (otherwise : Option (List Text)) (b : Bool)
      → b ≡ leb (length (c ∷ text)) max_len
      → Cuts (c ∷ text) otherwise
      → Cuts (c ∷ text) (if b then some ((c ∷ text) ∷ []) else otherwise)
  whole_or c text otherwise true e h =
      ((c ∷ text) ∷ [], refl, whole-ArePieces c text (ground (arith, e)))
  whole_or c text otherwise false e h = h

  loop-ArePieces :
      (fuel : ℕ) (text : Text)
      → is_space newline ≡ true
      → 0 < max_len
      → length text ≤ fuel
      → Cuts text (chunk_loop is_space max_len fuel text)
  unfolding chunk_loop
  loop-ArePieces fuel [] white pos enough =
      ([], refl, record { short_enough = tt; not_empty = tt; same_words = refl })
  loop-ArePieces zero (c ∷ remaining) white pos enough = absurd (omega (arith, enough))
  loop-ArePieces (suc fuel) (c ∷ remaining) white pos enough =
      let text = c ∷ remaining in
      let i = split_index max_len (take max_len text) in
      let (low, high) =
        split_index-IsCut max_len (take max_len text) pos (length-take max_len text) in
      let (chunks, cut, pieces) =
        loop-ArePieces fuel (lstrip_newlines (drop i text)) white pos
          (omega (arith, length-lstrip (drop i text), length-drop i text, low, enough)) in
      let rest = chunk_loop is_space max_len fuel (lstrip_newlines (drop i text)) in
      let joined : Cuts text (elim rest [
        | none ↦ none
        | some cs ↦ some (append_chunk is_space max_len (rstrip is_space (take i text)) cs)
      ]) =
        (
          append_chunk is_space max_len (rstrip is_space (take i text)) chunks,
          rw cut refl,
          step-ArePieces text i chunks white high pieces,
        ) in
      whole_or c remaining _ (leb (length text) max_len) refl joined

  -- Cutting always ends, within as many rounds as the text has characters; no piece is longer than
  -- `max_len` or empty, and the pieces hold all characters of the text in their order, but for white
  -- space. The text is not empty, and `max_len` is not 0.
  pub chunk_message-Cuts :
      (text : Text)
      → is_space newline ≡ true
      → 0 < max_len
      → is_nonempty text ≡ true
      → Cuts text (chunk_message is_space max_len text)
  unfolding chunk_message
  chunk_message-Cuts [] white pos h = cc
  chunk_message-Cuts (c ∷ text) white pos h =
      whole_or c text _ (leb (length (c ∷ text)) max_len) refl
        (loop-ArePieces (length (c ∷ text)) (c ∷ text) white pos (omega arith))
