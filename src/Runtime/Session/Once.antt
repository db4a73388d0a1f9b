-- ===== src/Runtime/Session/Once.antt =====
-- runtime/agent_runner.py: a prompt that runs without an interrupt or an error.
use tri_onyx.Base.{
  ℕ, List, [], ◌∷◌, none, Bool, true, false, ◌&&◌, ◌||◌, if◌then◌else◌, nat_eq, ◌≡◌, ◌⊎◌, inl, inr,
  refl, ◌∙◌, arith, Bool-cases, All,
}
use tri_onyx.Runtime.Requests.{emit_result}
use tri_onyx.Runtime.Dispatcher.Queues.{Dispatcher}
use tri_onyx.Runtime.Session.{
  TextLibrary, SdkItem, assistant_message, user_message, result_message, other_message,
  iteration_error, StreamStep, Stream, Progress, Outcome, take_item, end_of_stream, prompt_loop,
  run_prompt, after_prompt, run_prompt_interruptible,
}
use tri_onyx.Runtime.Session.Terminal.{
  count_terminal, count_terminal-append, is_result, keeps_count, result_line,
}

-- One result, at the end of the stream.
abbrev pub AnswersOnce : TextLibrary → List StreamStep → Type 0
AnswersOnce lib [] = ⊥
AnswersOnce lib (s ∷ steps) =
    ((is_result lib s.item ≡ true) × (steps ≡ []))
    ⊎ ((is_result lib s.item ≡ false) × AnswersOnce lib steps)

abbrev pub IsUndisturbed : List StreamStep → Type 0
IsUndisturbed = All (λ s. s.interrupts ≡ false)

-- A prompt that came to its end and told it once, or not where the caller asks again.
abbrev ToldOnce : Bool → Outcome → Type 0
ToldOnce suppress o =
    (o.completed ≡ true)
    × (count_terminal o.lines ≡ (if nat_eq o.turns 0 && suppress then 0 else 1))

module _ (lib : TextLibrary) where
  result-once :
      (suppress flag watched : Bool) (elapsed elapsed' : ℕ) (item : SdkItem) (p : Progress)
      → is_result lib item ≡ true
      → (watched && flag) ≡ false
      → count_terminal p.written ≡ 0
      → ToldOnce suppress (
          prompt_loop lib watched suppress elapsed [] flag (take_item lib suppress elapsed' item p))
  unfolding prompt_loop take_item end_of_stream
  result-once suppress flag watched elapsed elapsed' (result_message cost usage) p e on quiet =
      let line = emit_result elapsed' p.num_turns cost false usage in
      elim (Bool-cases (nat_eq p.num_turns 0 && suppress)) [
        | inl held ↦ rw (on, held) (refl, quiet)
        | inr told ↦
            rw (on, told)
              (
                refl,
                omega (
                  arith,
                  count_terminal-append p.written (line ∷ []),
                  result_line lib elapsed' p.num_turns cost usage,
                  quiet,
                ),
              )
      ]
  result-once suppress flag watched elapsed elapsed' (assistant_message blocks) p e on quiet = cc
  result-once suppress flag watched elapsed elapsed' (user_message blocks) p e on quiet = cc
  result-once suppress flag watched elapsed elapsed' other_message p e on quiet = cc
  result-once suppress flag watched elapsed elapsed' iteration_error p e on quiet = cc

  loop-once :
      (watched suppress flag : Bool) (elapsed : ℕ) (steps : List StreamStep) (p : Progress)
      → (watched && flag) ≡ false
      → (watched ≡ true → IsUndisturbed steps)
      → AnswersOnce lib steps
      → count_terminal p.written ≡ 0
      → ToldOnce suppress (prompt_loop lib watched suppress elapsed steps flag p)
  unfolding prompt_loop
  loop-once watched suppress flag elapsed [] p on quiet once none_yet = absurd once
  loop-once watched suppress flag elapsed (s ∷ steps) p on quiet once none_yet =
      let flag' = flag || s.interrupts in
      let still : (watched && flag') ≡ false = elim (Bool-cases watched) [
        | inl w ↦ let calm : s.interrupts ≡ false = (quiet w).0 in ground (arith, w, on, calm)
        | inr w ↦ ground (arith, w)
      ] in
      elim once [
        | inl (result, final) ↦
            rw (on, final)
              (result-once suppress flag' watched elapsed s.elapsed s.item p result still none_yet)
        | inr (other, more) ↦ rw on (
            loop-once watched suppress flag' elapsed steps
              (take_item lib suppress s.elapsed s.item p) still (λ w. (quiet w).1) more
              (keeps_count lib suppress s.elapsed s.item p other ∙ none_yet))
      ]

  run_prompt-once :
      (watched suppress : Bool) (stream : Stream)
      → stream.query_error ≡ none
      → (watched ≡ true → IsUndisturbed stream.steps)
      → AnswersOnce lib stream.steps
      → ToldOnce suppress (run_prompt lib watched suppress stream)
  unfolding run_prompt
  run_prompt-once watched suppress stream fine quiet once = rw fine (
      loop-once watched suppress false stream.elapsed stream.steps _ (ground arith) quiet once refl)

  after_prompt-once :
      (first : Outcome) (retry : Stream) (d : Dispatcher)
      → ToldOnce true first
      → ToldOnce false (run_prompt lib false false retry)
      → count_terminal (after_prompt lib first retry d).0 ≡ 1
  unfolding after_prompt
  after_prompt-once first retry d (done, told) (done', told') =
      elim (Bool-cases (nat_eq first.turns 0)) [
        | inl silent ↦
            rw (done, silent)
              (ground (
                arith,
                count_terminal-append first.lines (run_prompt lib false false retry).lines,
                told,
                told',
                silent,
              ))
        | inr spoken ↦ rw (done, spoken) (ground (arith, told, spoken))
      ]

  -- A prompt that no interrupt disturbs, and whose query and follow-up run to the result of the SDK,
  -- is told to the gateway exactly once: by the result of the prompt, or by that of the follow-up
  -- "Continue." where the prompt took no turn.
  pub prompt_told_once :
      (stream retry : Stream) (d : Dispatcher)
      → stream.query_error ≡ none
      → IsUndisturbed stream.steps
      → AnswersOnce lib stream.steps
      → retry.query_error ≡ none
      → AnswersOnce lib retry.steps
      → count_terminal (run_prompt_interruptible lib stream retry d).0 ≡ 1
  unfolding run_prompt_interruptible
  prompt_told_once stream retry d fine quiet once fine' once' =
      after_prompt-once (run_prompt lib true true stream) retry d
        (run_prompt-once true true stream fine (λ w. quiet) once)
        (run_prompt-once false false retry fine' (λ w. cc) once')
