-- ===== src/Runtime/Dispatcher/Broken.antt =====
-- runtime/agent_runner.py, InboundDispatcher: what a line that ends the reader does, and what is left
-- after an interrupt.
use tri_onyx.Base.{
  List, [], ◌∷◌, ◌++◌, String, Bool, true, false, ◌≡◌, refl, sym, ap, ◌∙◌, inl, inr, ◌==◌,
  if◌then◌else◌, String_eq, All, Bool-cases, arith,
}
use tri_onyx.Runtime.Json.{Json, null, boolean, number, string, array, object, Members}
use tri_onyx.Runtime.Protocol.Table.{known, unknown, unhashable, TypeField, type_of}
use tri_onyx.Runtime.Dispatcher.Queues.{reading, crashed, is_reading, Dispatcher}
use tri_onyx.Runtime.Dispatcher.Reading.{
  LineLibrary, dispatch_type, dispatch, dispatch_value, read_text, read_line, read_lines, at_eof,
  reader_loop,
}
use tri_onyx.Runtime.Dispatcher.Sorting.{
  Line, skipped, routed, fatal, IsReadable, classify, classify_type, classify_value,
}
use tri_onyx.Runtime.Dispatcher.Adding.{AddsLine}
use tri_onyx.Runtime.Dispatcher.Order.{read_line-Adds, sum-cases}

abbrev pub ended_by_error : Dispatcher → Dispatcher
ended_by_error d = record d { task = crashed }

abbrev pub is_fatal : Line → Bool
is_fatal fatal = true
is_fatal skipped = false
is_fatal (routed k msg) = false

type-fatal :
    (t : TypeField) (msg : Members) (d : Dispatcher)
    → is_fatal (classify_type t msg) ≡ true
    → dispatch_type t msg d ≡ ended_by_error d
unfolding dispatch_type
type-fatal (known k) msg d h = cc
type-fatal unknown msg d h = cc
type-fatal unhashable msg d h = refl

value-fatal :
    (v : Json) (d : Dispatcher)
    → is_fatal (classify_value v) ≡ true
    → dispatch_value v d ≡ ended_by_error d
unfolding dispatch_value dispatch
value-fatal null d h = refl
value-fatal (boolean b) d h = refl
value-fatal (number n) d h = refl
value-fatal (string s) d h = refl
value-fatal (array xs) d h = refl
value-fatal (object msg) d h = type-fatal (type_of msg) msg d h

module _ (lib : LineLibrary) where
  line-fatal :
      (line : String) (d : Dispatcher)
      → is_fatal (classify lib line) ≡ true
      → read_line lib line d ≡ ended_by_error d
  unfolding read_line
  line-fatal line d h = elim (Bool-cases (lib.strip line == "")) [
    | inl e ↦ absurd (ground (arith, rw e at h))
    | inr e ↦ elim (sum-cases (lib.json_loads (lib.strip line))) [
      | inl (problem, e') ↦ absurd (ground (arith, rw (e, e') at h))
      | inr (v, e') ↦ rw (e, e', read_text) (value-fatal v d (rw (e, e') at h))
    ]
  ]

  stays_ended :
      (lines : List String) (d : Dispatcher)
      → read_lines lib lines (ended_by_error d) ≡ ended_by_error d
  unfolding read_lines
  stays_ended [] d = refl
  stays_ended (line ∷ lines) d = refl

  step_line :
      (line : String) (lines : List String) (d : Dispatcher)
      → d.task ≡ reading
      → read_lines lib (line ∷ lines) d ≡ read_lines lib lines (read_line lib line d)
  unfolding read_lines
  step_line line lines d e =
      ap (λ t. if is_reading t then read_lines lib lines (read_line lib line d) else d) e

  lines-fatal :
      (before : List String) (line : String) (after : List String) (d : Dispatcher)
      → d.task ≡ reading
      → All (λ l. IsReadable (classify lib l)) before
      → is_fatal (classify lib line) ≡ true
      → read_lines lib (before ++ (line ∷ after)) d ≡ ended_by_error (read_lines lib before d)
  lines-fatal [] line after d e h bad =
      step_line line after d e
      ∙ ap (read_lines lib after) (line-fatal line d bad)
      ∙ stays_ended after d
      ∙ unfold read_lines in refl
  lines-fatal (l ∷ before) line after d e (h, hs) bad =
      let one : AddsLine (classify lib l) d (read_line lib l d) = read_line-Adds lib l d h in
      step_line l (before ++ (line ∷ after)) d e
      ∙ lines-fatal before line after (read_line lib l d) (one.goes_on ∙ e) hs bad
      ∙ ap ended_by_error (sym (step_line l before d e))

  -- A line that holds JSON but no object, or an object whose type is a list or an object, ends the
  -- reader: nothing behind it is read, and the main loop never hears of the end of stdin.
  pub reader_loop_broken :
      (before : List String) (line : String) (after : List String) (d : Dispatcher)
      → d.task ≡ reading
      → All (λ l. IsReadable (classify lib l)) before
      → is_fatal (classify lib line) ≡ true
      → reader_loop lib (before ++ (line ∷ after)) d ≡ ended_by_error (read_lines lib before d)
  unfolding reader_loop at_eof
  reader_loop_broken before line after d e h bad =
      ap (at_eof lib) (lines-fatal before line after d e h bad)
