-- ===== src/Connector/Chunks/Bounds.antt =====
-- Where a long message is cut: behind its first character, and not behind the longest piece.
use tri_onyx.Base.{
  ℕ, zero, suc, ◌+◌, ◌/◌, ◌≤◌, ◌<◌, [], ◌∷◌, Option, none, some, Bool, true, false, ◌&&◌,
  if◌then◌else◌, ltb, nat_eq, length, inl, inr, arith, Bool-cases,
}
use tri_onyx.Connector.Chunks.Lists.{Text}
use tri_onyx.Connector.Chunks.{
  newline, space, ends_sentence, rfind, rfind_paragraph, last_sentence_boundary, beyond, cut_at,
  split_index,
}

-- An index that is there is below `n`.
abbrev pub IsBelow : ℕ → Option ℕ → Type 0
IsBelow n none = Unit
IsBelow n (some i) = i < n

IsBelow-choice :
    (n i : ℕ) (b : Bool) (best : Option ℕ)
    → i < n
    → IsBelow n best
    → IsBelow n (if b then some i else best)
IsBelow-choice n i true best h hb = h
IsBelow-choice n i false best h hb = hb

pub rfind-IsBelow :
    (c : ℕ) (text : Text) (i n : ℕ) (best : Option ℕ)
    → i + length text ≤ n
    → IsBelow n best
    → IsBelow n (rfind c text i best)
unfolding rfind
rfind-IsBelow c [] i n best h hb = hb
rfind-IsBelow c (x ∷ text) i n best h hb =
    rfind-IsBelow c text (suc i) n _ (omega (arith, h))
      (IsBelow-choice n i (nat_eq x c) best (omega (arith, h)) hb)

-- The second line feed of the paragraph's end is in the text as well.
paragraph-IsBelow :
    (text : Text) (i n : ℕ) (best : Option ℕ)
    → i + length text ≤ suc n
    → IsBelow n best
    → IsBelow n (rfind_paragraph text i best)
unfolding rfind_paragraph
paragraph-IsBelow [] i n best h hb = hb
paragraph-IsBelow (x ∷ []) i n best h hb = hb
paragraph-IsBelow (x ∷ y ∷ text) i n best h hb =
    paragraph-IsBelow (y ∷ text) (suc i) n _ (omega (arith, h))
      (IsBelow-choice n i (nat_eq x newline && nat_eq y newline) best (omega (arith, h)) hb)

sentence-IsBelow :
    (text : Text) (i n : ℕ) (best : Option ℕ)
    → i + length text < n
    → IsBelow n best
    → IsBelow n (last_sentence_boundary text i best)
unfolding last_sentence_boundary
sentence-IsBelow [] i n best h hb = hb
sentence-IsBelow (x ∷ []) i n best h hb = hb
sentence-IsBelow (x ∷ y ∷ text) i n best h hb =
    sentence-IsBelow (y ∷ text) (suc i) n _ (omega (arith, h))
      (IsBelow-choice n (i + 2) (ends_sentence x && nat_eq y space) best (omega (arith, h)) hb)

abbrev pub IsCut : ℕ → ℕ → Type 0
IsCut max_len i = (0 < i) × (i ≤ max_len)

branch-IsCut :
    (max_len low n more otherwise : ℕ) (o : Option ℕ)
    → IsBelow n o
    → n + more ≤ suc max_len
    → IsCut max_len otherwise
    → IsCut max_len (cut_at (beyond low o) more otherwise)
branch-IsCut max_len low n more otherwise none below fits h = h
branch-IsCut max_len low n more otherwise (some i) below fits h = elim (Bool-cases (ltb low i)) [
  | inl e ↦
      let above : low < i = ground (arith, e) in
      rw e (omega (arith, above), omega (arith, below, fits))
  | inr e ↦ rw e h
]

-- A piece is cut off behind its first character at the earliest, and at `max_len` at the latest.
pub split_index-IsCut :
    (max_len : ℕ) (segment : Text)
    → 0 < max_len
    → length segment ≤ max_len
    → IsCut max_len (split_index max_len segment)
unfolding split_index
split_index-IsCut zero segment pos len = absurd (omega (arith, pos))
split_index-IsCut (suc k) segment pos len =
    let max_len = suc k in
    let low = max_len / 4 in
    branch-IsCut max_len low k 1 _ (rfind_paragraph segment 0 none)
      (paragraph-IsBelow segment 0 k none (omega (arith, len)) tt) (omega arith)
      (branch-IsCut max_len low max_len 1 _ (rfind newline segment 0 none)
        (rfind-IsBelow newline segment 0 max_len none (omega (arith, len)) tt) (omega arith)
        (branch-IsCut max_len low (suc max_len) 0 _ (last_sentence_boundary segment 0 none)
          (sentence-IsBelow segment 0 (suc max_len) none (omega (arith, len)) tt) (omega arith)
          (branch-IsCut max_len low max_len 0 _ (rfind space segment 0 none)
            (rfind-IsBelow space segment 0 max_len none (omega (arith, len)) tt) (omega arith)
            (pos, omega arith))))
