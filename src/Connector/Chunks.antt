-- ===== src/Connector/Chunks.antt =====
-- connector/connector/formatting.py: how a long message is cut into pieces. A text is the list of its
-- characters' codes. `str.rstrip` removes white space, which is the parameter `is_space`; what the
-- proofs use of it is that a line feed is white space.
pub mod Lists
pub mod Bounds
pub mod Split
use tri_onyx.Base.{
  ℕ, zero, suc, ◌+◌, ◌-◌, ◌/◌, List, [], ◌∷◌, Option, none, some, Bool, true, false, ◌&&◌, ◌||◌,
  if◌then◌else◌, ltb, leb, nat_eq, length, Option-cases,
}
use tri_onyx.Connector.Chunks.Lists.{Text, take, drop, rstrip, lstrip_newlines}

abbrev pub newline : ℕ
newline = 10

abbrev pub space : ℕ
space = 32

-- `ch in ".!?"`
abbrev pub ends_sentence : ℕ → Bool
ends_sentence c = nat_eq c 46 || (nat_eq c 33 || nat_eq c 63)

-- `text.rfind(c)`, from the index `i` on; `none` for -1
unfoldable pub rfind : ℕ → Text → ℕ → Option ℕ → Option ℕ
rfind c [] i best = best
rfind c (x ∷ text) i best = rfind c text (suc i) (if nat_eq x c then some i else best)

-- `text.rfind("\n\n")`
unfoldable pub rfind_paragraph : Text → ℕ → Option ℕ → Option ℕ
rfind_paragraph [] i best = best
rfind_paragraph (x ∷ []) i best = best
rfind_paragraph (x ∷ y ∷ text) i best =
    rfind_paragraph (y ∷ text) (suc i)
      (if nat_eq x newline && nat_eq y newline then some i else best)

-- `_last_sentence_boundary`, from the index `i` on
unfoldable pub last_sentence_boundary : Text → ℕ → Option ℕ → Option ℕ
last_sentence_boundary [] i best = best
last_sentence_boundary (x ∷ []) i best = best
last_sentence_boundary (x ∷ y ∷ text) i best =
    last_sentence_boundary (y ∷ text) (suc i)
      (if ends_sentence x && nat_eq y space then some (i + 2) else best)

-- The index, where there is one beyond `low`.
abbrev pub beyond : ℕ → Option ℕ → Option ℕ
beyond low none = none
beyond low (some i) = if ltb low i then some i else none

-- One branch of the chain of tests on the segment, and the branches that follow it.
abbrev pub cut_at : Option ℕ → ℕ → ℕ → ℕ
cut_at none more otherwise = otherwise
cut_at (some i) more otherwise = i + more

-- `split_idx`
unfoldable pub split_index : ℕ → Text → ℕ
unfolding rfind rfind_paragraph last_sentence_boundary
split_index max_len segment =
    let low = max_len / 4 in
    cut_at (beyond low (rfind_paragraph segment 0 none)) 1 (
      cut_at (beyond low (rfind newline segment 0 none)) 1 (
        cut_at (beyond low (last_sentence_boundary segment 0 none)) 0
          (cut_at (beyond low (rfind space segment 0 none)) 0 max_len)))

module _ (is_space : ℕ → Bool) (max_len : ℕ) where
  -- `if chunk: chunks.append(chunk)`
  abbrev pub append_chunk : Text → List Text → List Text
  append_chunk [] chunks = chunks
  append_chunk (c ∷ chunk) chunks = (c ∷ chunk) ∷ chunks

  -- The chunks of the loop from `remaining` on; `none` where the fuel does not suffice.
  unfoldable pub chunk_loop : ℕ → Text → Option (List Text)
  unfolding split_index
  chunk_loop fuel [] = some []
  chunk_loop zero (c ∷ remaining) = none
  chunk_loop (suc fuel) (c ∷ remaining) =
      let text = c ∷ remaining in
      let split_idx = split_index max_len (take max_len text) in
      let rest = chunk_loop fuel (lstrip_newlines (drop split_idx text)) in
      if leb (length text) max_len then some (text ∷ []) else elim rest [
        | none ↦ none
        | some chunks ↦ some (append_chunk (rstrip is_space (take split_idx text)) chunks)
      ]

  unfoldable pub chunk_message : Text → Option (List Text)
  unfolding chunk_loop
  chunk_message text =
      if leb (length text) max_len then some (text ∷ []) else chunk_loop (length text) text
