-- ===== src/Runtime/Dispatcher/Order.antt =====
-- runtime/agent_runner.py, InboundDispatcher: which queue a line reaches, and in what order.
use tri_onyx.Base.{
  List, [], ◌∷◌, ◌++◌, Option, none, String, Bool, ◌||◌, ◌≡◌, refl, sym, ap, ◌∙◌, inl, inr, ◌⊎◌,
  ◌==◌, if◌then◌else◌, String_eq, All, Bool-cases,
}
use mathlib.Core.List.{append_assoc}
use mathlib.Core.Bool.{or_assoc}
use mathlib.Core.Path.{subst}
use tri_onyx.Runtime.Json.{Json, null, boolean, number, string, array, object, Members}
use tri_onyx.Runtime.Protocol.Classes.{Message}
use tri_onyx.Runtime.Protocol.Table.{known, unknown, unhashable, TypeField, type_of}
use tri_onyx.Runtime.Dispatcher.Queues.{is_reading, Queue, reading, ended, Dispatcher, put_control}
use tri_onyx.Runtime.Dispatcher.Reading.{
  dispatch_type, LineLibrary, dispatch, dispatch_value, read_text, read_line, read_lines, at_eof,
  reader_loop,
}
use tri_onyx.Runtime.Dispatcher.Sorting.{
  classify_type, IsReadable, classify, classify_value, control_part, reply_part, gather,
  any_interrupt,
}
use tri_onyx.Runtime.Dispatcher.Adding.{error_added, Adds, AddsLine, nothing_added, route-Adds}

-- One after the other.
one_by_one :
    {cs cs' : List (Option Members)} {rs rs' : Queue → List Message} {i i' : Bool}
    {d d' d'' : Dispatcher}
    → Adds cs rs i d d'
    → Adds cs' rs' i' d' d''
    → Adds (cs ++ cs') (λ q. rs q ++ rs' q) (i || i') d d''
one_by_one {cs} {cs'} {rs} {rs'} {i} {i'} {d} f g = record {
  goes_on = g.goes_on ∙ f.goes_on;
  control = g.control ∙ ap (λ xs. xs ++ cs') f.control ∙ append_assoc d.control_queue cs cs';
  reply = λ q.
      g.reply q ∙ ap (λ xs. xs ++ rs' q) (f.reply q) ∙ append_assoc (d.responses q) (rs q) (rs' q);
  interrupted = g.interrupted ∙ ap (λ b. b || i') f.interrupted ∙ or_assoc d.interrupt_event i i';
}

dispatch_type-Adds :
    (t : TypeField) (msg : Members) (d : Dispatcher)
    → IsReadable (classify_type t msg)
    → AddsLine (classify_type t msg) d (dispatch_type t msg d)
unfolding dispatch_type
dispatch_type-Adds (known k) msg d h = route-Adds k msg d
dispatch_type-Adds unknown msg d h = nothing_added d
dispatch_type-Adds unhashable msg d h = absurd h

dispatch_value-Adds :
    (v : Json) (d : Dispatcher)
    → IsReadable (classify_value v)
    → AddsLine (classify_value v) d (dispatch_value v d)
unfolding dispatch_value dispatch
dispatch_value-Adds null d h = absurd h
dispatch_value-Adds (boolean b) d h = absurd h
dispatch_value-Adds (number n) d h = absurd h
dispatch_value-Adds (string s) d h = absurd h
dispatch_value-Adds (array xs) d h = absurd h
dispatch_value-Adds (object msg) d h = dispatch_type-Adds (type_of msg) msg d h

pub sum-cases : {A B : Type 0} (s : A ⊎ B) → ((a : A) × (s ≡ inl a)) ⊎ ((b : B) × (s ≡ inr b))
sum-cases (inl a) = inl (a, refl)
sum-cases (inr b) = inr (b, refl)

module _ (lib : LineLibrary) where
  pub read_line-Adds :
      (line : String) (d : Dispatcher)
      → IsReadable (classify lib line)
      → AddsLine (classify lib line) d (read_line lib line d)
  unfolding read_line
  read_line-Adds line d h = elim (Bool-cases (lib.strip line == "")) [
    | inl e ↦ rw e (nothing_added d)
    | inr e ↦ elim (sum-cases (lib.json_loads (lib.strip line))) [
      | inl (problem, e') ↦ rw (e, e', read_text) (error_added d)
      | inr (v, e') ↦ rw (e, e', read_text) (dispatch_value-Adds v d (rw (e, e') at h))
    ]
  ]

  pub read_lines-Adds :
      (lines : List String) (d : Dispatcher)
      → d.task ≡ reading
      → All (λ l. IsReadable (classify lib l)) lines
      → Adds
          (gather control_part lib lines)
          (λ q. gather (reply_part q) lib lines)
          (any_interrupt lib lines)
          d
          (read_lines lib lines d)
  unfolding read_lines
  read_lines-Adds [] d e h = nothing_added d
  read_lines-Adds (line ∷ lines) d e (h, hs) =
      let one : AddsLine (classify lib line) d (read_line lib line d) = read_line-Adds line d h in
      let rest = read_lines lib lines (read_line lib line d) in
      let step : rest ≡ read_lines lib (line ∷ lines) d =
        ap (λ t. if is_reading t then rest else d) (sym e) in
      subst
        (Adds (gather control_part lib (line ∷ lines))
          (λ q. gather (reply_part q) lib (line ∷ lines)) (any_interrupt lib (line ∷ lines)) d)
        step (one_by_one one (read_lines-Adds lines (read_line lib line d) (one.goes_on ∙ e) hs))

  -- Where no line ends the reader, it puts the messages of the main loop into the control queue,
  -- all of them and in the order of the lines, and the end of stdin behind them; each response queue
  -- gets just what the protocol's parsers make of the lines that answer its tool, in their order;
  -- and the interrupt event is set if it was, or if a line asks for it.
  pub reader_loop_sorts :
      (lines : List String) (d : Dispatcher)
      → d.task ≡ reading
      → All (λ l. IsReadable (classify lib l)) lines
      → ((reader_loop lib lines d).control_queue
          ≡ d.control_queue ++ (gather control_part lib lines ++ (none ∷ [])))
        × ((q : Queue)
            → (reader_loop lib lines d).responses q
              ≡ d.responses q ++ gather (reply_part q) lib lines)
        × ((reader_loop lib lines d).interrupt_event
            ≡ (d.interrupt_event || any_interrupt lib lines))
  unfolding reader_loop at_eof put_control
  reader_loop_sorts lines d e h =
      let all = read_lines-Adds lines d e h in
      let d' = read_lines lib lines d in
      let at_end : record (put_control none d') { task = ended } ≡ at_eof lib d' =
        ap (λ t. if is_reading t then record (put_control none d') { task = ended } else d')
          (sym (all.goes_on ∙ e)) in
      (
        sym (ap (λ r. r.control_queue) at_end)
            ∙ ap (λ xs. xs ++ (none ∷ [])) all.control
            ∙ append_assoc d.control_queue (gather control_part lib lines) (none ∷ []),
        λ q. sym (ap (λ r. r.responses q) at_end) ∙ all.reply q,
        sym (ap (λ r. r.interrupt_event) at_end) ∙ all.interrupted,
      )
