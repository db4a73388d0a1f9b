-- ===== src/Examples/Prompts.antt =====
-- The theorems on prompts, files, the tools' names and long messages, at small inputs.
use tri_onyx.Base.{
  ℕ, ◌≤◌, List, [], ◌∷◌, none, some, String, Bool, true, false, ◌≡◌, refl, ◌==◌, String_eq, arith,
  contains, nat_eq, ◌⊎◌, inl, inr, ◌||◌,
}
use tri_onyx.Runtime.Json.{string, empty, number}
use tri_onyx.Runtime.Requests.{emit_submit_image_request}
use tri_onyx.Runtime.Dispatcher.Queues.{new_dispatcher}
use tri_onyx.Runtime.Session.{
  TextLibrary, Stream, StreamStep, assistant_message, result_message, text_block,
  run_prompt_interruptible,
}
use tri_onyx.Runtime.Session.Terminal.{count_terminal, ResultLast}
use tri_onyx.Runtime.Session.Ends.{prompt_told_to_gateway, failed_query_told_twice}
use tri_onyx.Runtime.Session.Once.{AnswersOnce, prompt_told_once}
use tri_onyx.Runtime.Names.{sdk_tools}
use tri_onyx.Runtime.Names.Plain.{sdk_tools_plain}
use tri_onyx.Runtime.Tools.{ShowLibrary}
use tri_onyx.Runtime.Tools.Files.{FileLibrary, submit_image_handle}
use tri_onyx.Runtime.Tools.Guarded.{root, target, IsSendable, image_request_guarded}
use tri_onyx.Runtime.Submissions.{Submission, persist_submission, last_with}
use tri_onyx.Runtime.Submissions.Found.{persist_each, submission_found}
use tri_onyx.Connector.Chunks.{chunk_message}
use tri_onyx.Connector.Chunks.Split.{Cuts, chunk_message-Cuts}

abbrev short_texts : TextLibrary
short_texts = record { size = λ s. 0; first = λ n s. s; dumps = λ v. "" }

abbrev calm_steps : List StreamStep
calm_steps =
    record { interrupts = false; elapsed = 3; item = assistant_message (text_block "hello" ∷ []) }
    ∷ record { interrupts = false; elapsed = 4; item = result_message (number 0) none }
    ∷ []

abbrev calm : Stream
calm = record { query_error = none; steps = calm_steps; elapsed = 5 }

abbrev broken : Stream
broken = record { query_error = some "not connected"; steps = []; elapsed = 1 }

calm_ends : ResultLast short_texts calm_steps
calm_ends = ((λ e. cc), ((λ e. refl), tt))

calm_once : AnswersOnce short_texts calm_steps
calm_once = inr (refl, inl (refl, refl))

prompt_told_to_gateway_example :
    1 ≤ count_terminal (run_prompt_interruptible short_texts broken calm new_dispatcher).0
prompt_told_to_gateway_example =
    prompt_told_to_gateway short_texts broken calm new_dispatcher tt calm_ends

prompt_told_once_example :
    count_terminal (run_prompt_interruptible short_texts calm calm new_dispatcher).0 ≡ 1
prompt_told_once_example =
    prompt_told_once short_texts calm calm new_dispatcher refl (refl, (refl, tt)) calm_once refl
      calm_once

failed_query_told_twice_example :
    2 ≤ count_terminal (run_prompt_interruptible short_texts broken calm new_dispatcher).0
failed_query_told_twice_example =
    failed_query_told_twice short_texts broken calm new_dispatcher "not connected" refl calm_ends

abbrev declared : List String
declared = "Read" ∷ "SaveDraft" ∷ "SendMessage" ∷ []

-- `SaveDraft` reaches the SDK under its own name too.
sdk_tools_plain_example : contains "SaveDraft" (sdk_tools declared) ≡ true
sdk_tools_plain_example = sdk_tools_plain "SaveDraft" declared refl

abbrev no_show : ShowLibrary
no_show = record { show = λ v. ""; show_number = λ n. ""; dumps = λ v. "" }

abbrev one_file : FileLibrary
one_file = record {
  is_absolute = λ p. true;
  join = λ a b. "/workspace/a.png";
  resolve = λ p. p;
  is_relative_to = λ p root. "/workspace/a.png" == p;
  is_file = λ p. true;
  suffix = λ p. ".png";
  size = λ p. some 100;
  name = λ p. "a.png";
  stem = λ p. "a";
  relative_to = λ p root. "a.png";
  strip = λ s. s;
}

rejoined :
    (p : String)
    → one_file.is_relative_to p (root no_show one_file) ≡ true
    → one_file.join (root no_show one_file) (one_file.relative_to p (root no_show one_file)) ≡ p
rejoined p h = (String_eq.equals_iff "/workspace/a.png" p).0 h

image_request_guarded_example :
    (((submit_image_handle no_show one_file "/workspace/a.png" "r1" [] new_dispatcher).written ≡ [])
      × (¬ (
          (media_type : String) × IsSendable no_show one_file
            (target no_show one_file "/workspace/a.png")
            media_type)))
    ⊎ ((place filename media_type : String) × ((submit_image_handle no_show one_file
            "/workspace/a.png" "r1" [] new_dispatcher).written
          ≡ emit_submit_image_request "r1" place filename media_type ∷ [])
        × (one_file.join (root no_show one_file) place ≡ target no_show one_file "/workspace/a.png")
        × IsSendable no_show one_file (one_file.join (root no_show one_file) place) media_type)
image_request_guarded_example =
    image_request_guarded no_show one_file "/workspace/a.png" "r1" [] new_dispatcher (λ p. refl)
      rejoined

abbrev white : ℕ → Bool
white c = nat_eq c 32 || nat_eq c 10

abbrev words : List ℕ
words = 97 ∷ 98 ∷ 32 ∷ 99 ∷ 100 ∷ []

chunk_message-Cuts_example : Cuts white 4 words (chunk_message white 4 words)
chunk_message-Cuts_example = chunk_message-Cuts white 4 words refl (omega arith) refl

abbrev vote_for : Submission
vote_for = record {
  url = string "u1";
  item_type = string "article";
  title = string "A";
  metadata = empty;
  submitted_at = "now";
}

abbrev another : Submission
another = record vote_for { url = string "u2" }

submission_found_example :
    last_with "u1" (persist_each (another ∷ []) (persist_submission true vote_for []))
    ≡ some vote_for
submission_found_example =
    (submission_found [] (another ∷ []) vote_for "u1" refl (refl, tt) (omega arith)).0
