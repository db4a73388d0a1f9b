-- ===== src/Runtime/Session.antt =====
-- runtime/agent_runner.py: one prompt, from the query of the SDK's client to the end of its stream of
-- answers. The client is not part of the repository: what it gives is the record `Stream`.
pub mod Terminal
pub mod Ends
pub mod Once
use tri_onyx.Base.{
  ℕ, suc, ◌-◌, List, [], ◌∷◌, ◌++◌, Option, none, some, String, Bool, true, false, not, ◌&&◌, ◌||◌,
  ◌==◌, if◌then◌else◌, String_eq, nat_eq, leb,
}
use tri_onyx.Runtime.Json.{Json, null, boolean, number, string, array, object, Members}
use tri_onyx.Runtime.Requests.{
  emit_text, emit_tool_use, emit_tool_result, emit_result, emit_error, emit_interrupted,
}
use tri_onyx.Runtime.Dispatcher.Queues.{Dispatcher, drain_stale_responses}
use tri_onyx.Runtime.Names.{normalize_tool_name}
use tri_onyx.Runtime.Tools.{◌+s◌}

pub record TextLibrary : Type 0 where
  -- `len(text)` and `text[:n]`
  pub size : String → ℕ
  pub first : ℕ → String → String
  -- `json.dumps(content, default=str)`
  pub dumps : Json → String

-- The content blocks of the SDK's messages.
pub data Block : Type 0 where
  text_block : String → Block
  tool_use_block : String → String → Members → Block
  tool_result_block : String → Json → Bool → Block
  other_block : Block

-- What one step of the stream gives: a message, or an exception that it skips.
pub data SdkItem : Type 0 where
  assistant_message : List Block → SdkItem
  user_message : List Block → SdkItem
  result_message : Json → Option Members → SdkItem
  other_message : SdkItem
  iteration_error : SdkItem

-- `interrupts`: the reader sets the interrupt event while the loop waits for the item; `elapsed`: the
-- milliseconds since the start of the prompt.
pub record StreamStep : Type 0 where
  pub interrupts : Bool
  pub elapsed : ℕ
  pub item : SdkItem

-- `query_error`: the text of the exception that `client.query` raises.
pub record Stream : Type 0 where
  pub query_error : Option String
  pub steps : List StreamStep
  pub elapsed : ℕ

abbrev pub max_tool_result_len : ℕ
max_tool_result_len = 4096

unfoldable pub truncate : TextLibrary → String → String
truncate lib text =
    if leb (lib.size text) max_tool_result_len
    then text
    else lib.first (max_tool_result_len - 20) text +s "... [truncated]"

-- The variables of the loop.
pub record Progress : Type 0 where
  pub num_turns : ℕ
  pub got_result : Bool
  pub written : List Members

pub record Outcome : Type 0 where
  pub completed : Bool
  pub turns : ℕ
  -- the interrupt event at the end
  pub interrupt : Bool
  pub lines : List Members

abbrev pub content_text : TextLibrary → Json → String
content_text lib (string s) = s
content_text lib content = lib.dumps content

module _ (lib : TextLibrary) where
  unfoldable pub assistant_blocks : List Block → List Members
  unfolding normalize_tool_name
  assistant_blocks [] = []
  assistant_blocks (text_block s ∷ blocks) = emit_text s ∷ assistant_blocks blocks
  assistant_blocks (tool_use_block id name input ∷ blocks) =
      emit_tool_use id (normalize_tool_name name) input ∷ assistant_blocks blocks
  assistant_blocks (_ ∷ blocks) = assistant_blocks blocks

  unfoldable pub user_blocks : List Block → List Members
  unfolding truncate
  user_blocks [] = []
  user_blocks (tool_result_block id content is_error ∷ blocks) =
      emit_tool_result id (truncate lib (content_text lib content)) is_error ∷ user_blocks blocks
  user_blocks (_ ∷ blocks) = user_blocks blocks

  unfoldable pub take_item : Bool → ℕ → SdkItem → Progress → Progress
  unfolding assistant_blocks user_blocks
  take_item suppress elapsed (assistant_message blocks) p = record p {
    written = p.written ++ assistant_blocks blocks;
    num_turns = suc p.num_turns;
  }
  take_item suppress elapsed (user_message blocks) p = record p {
    written = p.written ++ user_blocks blocks;
  }
  take_item suppress elapsed (result_message cost usage) p = record p {
    got_result = true;
    written =
        if nat_eq p.num_turns 0 && suppress
        then p.written
        else p.written ++ (emit_result elapsed p.num_turns cost false usage ∷ []);
  }
  take_item suppress elapsed other_message p = p
  take_item suppress elapsed iteration_error p = p

  abbrev pub error_lines : String → ℕ → ℕ → List Members
  error_lines message elapsed turns =
      emit_error message ∷ emit_result elapsed turns (number 0) true none ∷ []

  unfoldable pub end_of_stream : ℕ → Bool → Progress → Outcome
  end_of_stream elapsed flag p = record {
    completed = true;
    turns = p.num_turns;
    interrupt = flag;
    lines =
        if p.got_result
        then p.written
        else p.written ++ error_lines "SDK stream ended without a result" elapsed p.num_turns;
  }

  abbrev pub aborted : Progress → Outcome
  aborted p = record { completed = false; turns = p.num_turns; interrupt = true; lines = p.written }

  -- The loop over the stream. `watched`: there is an interrupt event; `flag`: it is set.
  unfoldable pub prompt_loop : Bool → Bool → ℕ → List StreamStep → Bool → Progress → Outcome
  unfolding take_item end_of_stream
  prompt_loop watched suppress elapsed [] flag p =
      if watched && flag then aborted p else end_of_stream elapsed flag p
  prompt_loop watched suppress elapsed (s ∷ steps) flag p =
      let rest =
        prompt_loop watched suppress elapsed steps (flag || s.interrupts)
          (take_item suppress s.elapsed s.item p) in
      if watched && flag then aborted p else rest

  unfoldable pub run_prompt : Bool → Bool → Stream → Outcome
  unfolding prompt_loop
  run_prompt watched suppress stream = elim stream.query_error [
    | none ↦
        prompt_loop watched suppress stream.elapsed stream.steps false
          record { num_turns = 0; got_result = false; written = [] }
    | some message ↦ record {
      completed = true;
      turns = 0;
      interrupt = false;
      lines = error_lines message stream.elapsed 0;
    }
  ]

  -- What `run_prompt_interruptible` does with the first outcome. `retry` is the stream of the follow-up
  -- "Continue.".
  unfoldable pub after_prompt : Outcome → Stream → Dispatcher → List Members × Bool × Dispatcher
  unfolding run_prompt
  after_prompt first retry d =
      let cleared = record d { interrupt_event = first.interrupt } in
      let second = run_prompt false false retry in
      if not first.completed
      then (
        first.lines ++ (emit_interrupted "user_message" ∷ []),
        false,
        drain_stale_responses cleared,
      )
      else if nat_eq first.turns 0
      then (
        first.lines ++ second.lines,
        true,
        record d { interrupt_event = first.interrupt || second.interrupt },
      )
      else (first.lines, true, cleared)

  unfoldable pub run_prompt_interruptible :
      Stream → Stream → Dispatcher → List Members × Bool × Dispatcher
  unfolding after_prompt
  run_prompt_interruptible stream retry d = after_prompt (run_prompt true true stream) retry d
