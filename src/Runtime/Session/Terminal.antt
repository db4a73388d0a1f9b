-- ===== src/Runtime/Session/Terminal.antt =====
-- runtime/agent_runner.py: what the gateway hears of the end of a prompt.
use tri_onyx.Base.{
  ℕ, ◌+◌, ◌≤◌, List, [], ◌∷◌, ◌++◌, Option, none, some, String, Bool, true, false, ◌&&◌, ◌||◌, ◌==◌,
  if◌then◌else◌, String_eq, nat_eq, ◌≡◌, ◌⊎◌, inl, inr, refl, ◌∙◌, arith, Bool-cases, Option-cases,
}
use tri_onyx.Runtime.Json.{Json, string, Members, find}
use tri_onyx.Runtime.Requests.{emit_text, emit_tool_use, emit_tool_result, emit_result, emit_error}
use tri_onyx.Runtime.Session.{
  TextLibrary, Block, text_block, tool_use_block, tool_result_block, other_block, SdkItem,
  assistant_message, user_message, result_message, other_message, iteration_error, StreamStep,
  Stream, Progress, Outcome, assistant_blocks, user_blocks, take_item, error_lines, end_of_stream,
  prompt_loop, run_prompt,
}

-- The two types of the lines that end a prompt for the gateway.
abbrev pub ends_prompt : Json → Bool
ends_prompt (string t) = t == "result" || t == "interrupted"
ends_prompt _ = false

abbrev pub is_terminal : Members → Bool
unfolding find
is_terminal line = elim (find "type" line) [ none ↦ false | some v ↦ ends_prompt v ]

abbrev pub count_terminal : List Members → ℕ
count_terminal [] = 0
count_terminal (line ∷ lines) = (if is_terminal line then 1 else 0) + count_terminal lines

pub count_terminal-append :
    (xs ys : List Members) → count_terminal (xs ++ ys) ≡ count_terminal xs + count_terminal ys
count_terminal-append [] ys = omega arith
count_terminal-append (x ∷ xs) ys = omega (arith, count_terminal-append xs ys)

pub error_lines-count :
    (lib : TextLibrary) (message : String) (elapsed turns : ℕ)
    → count_terminal (error_lines lib message elapsed turns) ≡ 1
unfolding emit_error emit_result find
error_lines-count lib message elapsed turns = refl

module _ (lib : TextLibrary) where
  assistant_blocks-quiet : (blocks : List Block) → count_terminal (assistant_blocks lib blocks) ≡ 0
  unfolding assistant_blocks emit_text emit_tool_use find
  assistant_blocks-quiet [] = refl
  assistant_blocks-quiet (text_block s ∷ blocks) = omega (arith, assistant_blocks-quiet blocks)
  assistant_blocks-quiet (tool_use_block id name input ∷ blocks) =
      omega (arith, assistant_blocks-quiet blocks)
  assistant_blocks-quiet (tool_result_block id content is_error ∷ blocks) =
      assistant_blocks-quiet blocks
  assistant_blocks-quiet (other_block ∷ blocks) = assistant_blocks-quiet blocks

  user_blocks-quiet : (blocks : List Block) → count_terminal (user_blocks lib blocks) ≡ 0
  unfolding user_blocks emit_tool_result find
  user_blocks-quiet [] = refl
  user_blocks-quiet (text_block s ∷ blocks) = user_blocks-quiet blocks
  user_blocks-quiet (tool_use_block id name input ∷ blocks) = user_blocks-quiet blocks
  user_blocks-quiet (tool_result_block id content is_error ∷ blocks) =
      omega (arith, user_blocks-quiet blocks)
  user_blocks-quiet (other_block ∷ blocks) = user_blocks-quiet blocks

  abbrev pub is_result : SdkItem → Bool
  is_result (result_message cost usage) = true
  is_result (assistant_message blocks) = false
  is_result (user_message blocks) = false
  is_result other_message = false
  is_result iteration_error = false

  -- The SDK's stream ends at the result, if it has one.
  abbrev pub ResultLast : List StreamStep → Type 0
  ResultLast [] = Unit
  ResultLast (s ∷ steps) = (is_result s.item ≡ true → steps ≡ []) × ResultLast steps

  -- A result that was seen was written, or held back for the caller.
  abbrev Reported : Bool → Progress → Type 0
  Reported suppress p =
      p.got_result ≡ true → (1 ≤ count_terminal p.written) ⊎ ((suppress ≡ true) × (p.num_turns ≡ 0))

  pub result_line :
      (elapsed turns : ℕ) (cost : Json) (usage : Option Members)
      → count_terminal (emit_result elapsed turns cost false usage ∷ []) ≡ 1
  unfolding emit_result find
  result_line elapsed turns cost usage = refl

  result-Reported :
      (suppress : Bool) (elapsed : ℕ) (item : SdkItem) (p : Progress)
      → is_result item ≡ true
      → Reported suppress (take_item lib suppress elapsed item p)
  unfolding take_item
  result-Reported suppress elapsed (result_message cost usage) p e h =
      elim (Bool-cases (nat_eq p.num_turns 0 && suppress)) [
        | inl held ↦ inr (ground (arith, held), ground (arith, held))
        | inr told ↦
            let line = emit_result elapsed p.num_turns cost false usage in
            inl (
              rw told (
                omega (
                  arith,
                  count_terminal-append p.written (line ∷ []),
                  result_line elapsed p.num_turns cost usage,
                )))
      ]
  result-Reported suppress elapsed (assistant_message blocks) p e h = cc
  result-Reported suppress elapsed (user_message blocks) p e h = cc
  result-Reported suppress elapsed other_message p e h = cc
  result-Reported suppress elapsed iteration_error p e h = cc

  pub keeps_unseen :
      (suppress : Bool) (elapsed : ℕ) (item : SdkItem) (p : Progress)
      → is_result item ≡ false
      → (take_item lib suppress elapsed item p).got_result ≡ p.got_result
  unfolding take_item
  keeps_unseen suppress elapsed (assistant_message blocks) p h = refl
  keeps_unseen suppress elapsed (user_message blocks) p h = refl
  keeps_unseen suppress elapsed (result_message cost usage) p h = cc
  keeps_unseen suppress elapsed other_message p h = refl
  keeps_unseen suppress elapsed iteration_error p h = refl

  pub keeps_count :
      (suppress : Bool) (elapsed : ℕ) (item : SdkItem) (p : Progress)
      → is_result item ≡ false
      → count_terminal (take_item lib suppress elapsed item p).written ≡ count_terminal p.written
  unfolding take_item
  keeps_count suppress elapsed (assistant_message blocks) p h = omega (
    arith,
    count_terminal-append p.written (assistant_blocks lib blocks),
    assistant_blocks-quiet blocks,
  )
  keeps_count suppress elapsed (user_message blocks) p h =
      omega
        (arith, count_terminal-append p.written (user_blocks lib blocks), user_blocks-quiet blocks)
  keeps_count suppress elapsed (result_message cost usage) p h = cc
  keeps_count suppress elapsed other_message p h = refl
  keeps_count suppress elapsed iteration_error p h = refl

  -- What a prompt that was not interrupted has told of its end.
  abbrev pub Concluded : Bool → Outcome → Type 0
  Concluded suppress o =
      o.completed ≡ true → (1 ≤ count_terminal o.lines) ⊎ ((suppress ≡ true) × (o.turns ≡ 0))

  end_of_stream-Concluded :
      (suppress flag : Bool) (elapsed : ℕ) (p : Progress)
      → Reported suppress p
      → Concluded suppress (end_of_stream lib elapsed flag p)
  unfolding end_of_stream
  end_of_stream-Concluded suppress flag elapsed p reported h = elim (Bool-cases p.got_result) [
    | inl seen ↦ rw seen (reported seen)
    | inr unseen ↦ inl (
        rw unseen (
          omega (
            arith,
            count_terminal-append p.written
                (error_lines lib "SDK stream ended without a result" elapsed p.num_turns),
            error_lines-count lib "SDK stream ended without a result" elapsed p.num_turns,
          )))
  ]

  ended :
      (watched suppress flag : Bool) (elapsed : ℕ) (p : Progress)
      → Reported suppress p
      → Concluded suppress (prompt_loop lib watched suppress elapsed [] flag p)
  unfolding prompt_loop
  ended watched suppress flag elapsed p reported = elim (Bool-cases (watched && flag)) [
    | inl cut ↦ rw cut (λ h. cc)
    | inr on ↦ rw on (end_of_stream-Concluded suppress flag elapsed p reported)
  ]

  loop-Concluded :
      (watched suppress flag : Bool) (elapsed : ℕ) (steps : List StreamStep) (p : Progress)
      → p.got_result ≡ false
      → ResultLast steps
      → Concluded suppress (prompt_loop lib watched suppress elapsed steps flag p)
  unfolding prompt_loop
  loop-Concluded watched suppress flag elapsed [] p unseen last =
      elim (Bool-cases (watched && flag)) [
        | inl cut ↦ rw cut (λ h. cc)
        | inr on ↦ rw on (end_of_stream-Concluded suppress flag elapsed p (λ h. cc))
      ]
  loop-Concluded watched suppress flag elapsed (s ∷ steps) p unseen (final, last) =
      elim (Bool-cases (watched && flag)) [
        | inl cut ↦ rw cut (λ h. cc)
        | inr on ↦
            let p' = take_item lib suppress s.elapsed s.item p in
            let flag' = flag || s.interrupts in
            elim (Bool-cases (is_result s.item)) [
              | inr other ↦ rw on (
                  loop-Concluded watched suppress flag' elapsed steps p'
                    (keeps_unseen suppress s.elapsed s.item p other ∙ unseen) last)
              | inl result ↦
                  rw (on, final result)
                    (ended watched suppress flag' elapsed p'
                      (result-Reported suppress s.elapsed s.item p result))
            ]
      ]

  pub run_prompt-Concluded :
      (watched suppress : Bool) (stream : Stream)
      → ResultLast stream.steps
      → Concluded suppress (run_prompt lib watched suppress stream)
  unfolding run_prompt prompt_loop
  run_prompt-Concluded watched suppress stream last = elim (Option-cases stream.query_error) [
    | inl none_raised ↦
        rw (none_raised, run_prompt)
          (loop-Concluded watched suppress false stream.elapsed stream.steps _ refl last)
    | inr (message, raised) ↦
        rw (raised, run_prompt)
          (λ h. inl (omega (arith, error_lines-count lib message stream.elapsed 0)))
  ]
