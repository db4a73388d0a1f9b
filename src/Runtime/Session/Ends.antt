-- ===== src/Runtime/Session/Ends.antt =====
-- runtime/agent_runner.py: how often the gateway is told of the end of a prompt.
use tri_onyx.Base.{
  ℕ, ◌≤◌, List, [], ◌∷◌, none, some, String, Bool, true, false, ◌||◌, nat_eq, ◌≡◌, inl, inr, refl,
  ap, arith, Bool-cases, Option-cases,
}
use tri_onyx.Runtime.Json.{find}
use tri_onyx.Runtime.Requests.{emit_interrupted}
use tri_onyx.Runtime.Dispatcher.Queues.{Dispatcher}
use tri_onyx.Runtime.Session.{
  TextLibrary, StreamStep, Stream, Progress, Outcome, take_item, error_lines, end_of_stream,
  prompt_loop, run_prompt, after_prompt, run_prompt_interruptible,
}
use tri_onyx.Runtime.Session.Terminal.{
  count_terminal, count_terminal-append, error_lines-count, ResultLast, Concluded,
  run_prompt-Concluded,
}

interrupted_line : count_terminal (emit_interrupted "user_message" ∷ []) ≡ 1
unfolding emit_interrupted find
interrupted_line = refl

module _ (lib : TextLibrary) where
  unwatched-completes :
      (suppress flag : Bool) (elapsed : ℕ) (steps : List StreamStep) (p : Progress)
      → (prompt_loop lib false suppress elapsed steps flag p).completed ≡ true
  unfolding prompt_loop end_of_stream
  unwatched-completes suppress flag elapsed [] p = refl
  unwatched-completes suppress flag elapsed (s ∷ steps) p =
      unwatched-completes suppress (flag || s.interrupts) elapsed steps
        (take_item lib suppress s.elapsed s.item p)

  retry-completes : (stream : Stream) → (run_prompt lib false false stream).completed ≡ true
  unfolding run_prompt
  retry-completes stream = elim (Option-cases stream.query_error) [
    | inl fine ↦ rw fine (unwatched-completes false false stream.elapsed stream.steps _)
    | inr (message, raised) ↦ rw raised refl
  ]

  pub retry-ends :
      (stream : Stream)
      → ResultLast lib stream.steps
      → 1 ≤ count_terminal (run_prompt lib false false stream).lines
  retry-ends stream last =
      elim (run_prompt-Concluded lib false false stream last (retry-completes stream)) [
        | inl told ↦ told
        | inr (never, turns) ↦ cc
      ]

  after_prompt-ends :
      (first : Outcome) (retry : Stream) (d : Dispatcher)
      → Concluded lib true first
      → ResultLast lib retry.steps
      → 1 ≤ count_terminal (after_prompt lib first retry d).0
  unfolding after_prompt
  after_prompt-ends first retry d concluded last = elim (Bool-cases first.completed) [
    | inr cut ↦ rw cut (
        omega (
          arith,
          count_terminal-append first.lines (emit_interrupted "user_message" ∷ []),
          interrupted_line,
        ))
    | inl done ↦ elim (Bool-cases (nat_eq first.turns 0)) [
      | inl silent ↦
          rw (done, silent)
            (omega (
              arith,
              count_terminal-append first.lines (run_prompt lib false false retry).lines,
              retry-ends retry last,
            ))
      | inr spoken ↦ elim (concluded done) [
        | inl told ↦ rw (done, spoken) told
        | inr (held, turns) ↦ absurd (ground (arith, spoken, turns))
      ]
    ]
  ]

  -- However a prompt goes, the gateway is told of its end: by a result, or by `interrupted`. The SDK's
  -- streams end at the result, where they have one.
  pub prompt_told_to_gateway :
      (stream retry : Stream) (d : Dispatcher)
      → ResultLast lib stream.steps
      → ResultLast lib retry.steps
      → 1 ≤ count_terminal (run_prompt_interruptible lib stream retry d).0
  unfolding run_prompt_interruptible
  prompt_told_to_gateway stream retry d last last' =
      after_prompt-ends (run_prompt lib true true stream) retry d
        (run_prompt-Concluded lib true true stream last) last'

  abbrev failed : String → ℕ → Outcome
  failed message elapsed = record {
    completed = true;
    turns = 0;
    interrupt = false;
    lines = error_lines lib message elapsed 0;
  }

  run_prompt-failed :
      (watched suppress : Bool) (stream : Stream) (message : String)
      → stream.query_error ≡ some message
      → run_prompt lib watched suppress stream ≡ failed message stream.elapsed
  unfolding run_prompt
  run_prompt-failed watched suppress stream message raised =
      ap
        (λ e. elim e as (λ e. Outcome) [
          | none ↦
              prompt_loop lib watched suppress stream.elapsed stream.steps false
                record { num_turns = 0; got_result = false; written = [] }
          | some m ↦ failed m stream.elapsed
        ])
        raised

  failed_twice :
      (message : String) (elapsed : ℕ) (retry : Stream) (d : Dispatcher)
      → ResultLast lib retry.steps
      → 2 ≤ count_terminal (after_prompt lib (failed message elapsed) retry d).0
  unfolding after_prompt
  failed_twice message elapsed retry d last = omega (
    arith,
    count_terminal-append (error_lines lib message elapsed 0)
        (run_prompt lib false false retry).lines,
    error_lines-count lib message elapsed 0,
    retry-ends retry last,
  )

  -- A query that raises is answered by a result, with no turns, and then by the results of the
  -- follow-up "Continue.": the gateway is told of the end at least twice.
  pub failed_query_told_twice :
      (stream retry : Stream) (d : Dispatcher) (message : String)
      → stream.query_error ≡ some message
      → ResultLast lib retry.steps
      → 2 ≤ count_terminal (run_prompt_interruptible lib stream retry d).0
  unfolding run_prompt_interruptible
  failed_query_told_twice stream retry d message raised last =
      rw (run_prompt-failed true true stream message raised)
        (failed_twice message stream.elapsed retry d last)
