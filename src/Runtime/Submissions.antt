-- ===== src/Runtime/Submissions.antt =====
-- runtime/agent_runner.py: the ledger of what an agent has submitted, SubmitItemHandler._persist_submission,
-- and _enrich_item_feedback, which looks an item up when a user votes on it. The text of the enriched
-- prompt is not made: it is what its text is made of.
pub mod Found
use tri_onyx.Base.{
  ℕ, zero, suc, ◌-◌, List, [], ◌∷◌, ◌++◌, Option, none, some, String, Bool, true, false, ◌⊎◌, inl,
  inr, ◌==◌, if◌then◌else◌, String_eq, ltb, length,
}
use tri_onyx.Dict.{Dict, get}
use tri_onyx.Runtime.Json.{Json, string, object, Members, find, find_or, truthy}
use tri_onyx.Runtime.Protocol.Classes.{Message}
use tri_onyx.Runtime.Dispatcher.Queues.{Dispatcher, submit_item_responses}
use tri_onyx.Runtime.Waiting.{Waited, answered, timed_out, wait_for_matching_response}
use tri_onyx.Runtime.Tools.{ShowLibrary, Handled, success_of}
use tri_onyx.Runtime.Tools.Handlers.{submit_item_handle}

pub record Submission : Type 0 where
  pub url : Json
  pub item_type : Json
  pub title : Json
  pub metadata : Members
  pub submitted_at : String

abbrev pub max_submissions : ℕ
max_submissions = 200

-- submissions[n:]
abbrev pub drop_first : ℕ → List Submission → List Submission
drop_first zero xs = xs
drop_first (suc n) [] = []
drop_first (suc n) (x ∷ xs) = drop_first n xs

-- `submissions[-200:]` where there are more.
unfoldable pub keep_newest : List Submission → List Submission
keep_newest submissions =
    if ltb max_submissions (length submissions)
    then drop_first (length submissions - max_submissions) submissions
    else submissions

-- `writable`: the file could be read and written; an exception is logged, and the file stays as it was.
unfoldable pub persist_submission : Bool → Submission → List Submission → List Submission
unfolding keep_newest
persist_submission writable entry submissions =
    if writable then keep_newest (submissions ++ (entry ∷ [])) else submissions

-- `value == text` for the url of a vote
abbrev pub is_url : String → Json → Bool
is_url url (string s) = s == url
is_url url _ = false

-- The loop over `reversed(submissions)`: the last entry with the url.
unfoldable pub last_with : String → List Submission → Option Submission
last_with url [] = none
last_with url (x ∷ submissions) = elim (last_with url submissions) [
  | some y ↦ some y
  | none ↦ if is_url url x.url then some x else none
]

-- What the prompt is made of: the content as it came, or the vote and the entry.
pub data Enriched : Type 0 where
  unchanged : Enriched
  item_feedback : Json → Submission → Enriched

abbrev pub vote_emoji : Dict String String
vote_emoji = ("up", "👍") ∷ ("down", "👎") ∷ []

-- `_VOTE_EMOJI.get(vote, vote)`
abbrev pub emoji_of : Json → Json
emoji_of (string vote) = elim (get vote vote_emoji) [
  | none ↦ string vote
  | some emoji ↦ string emoji
]
emoji_of vote = vote

abbrev pub enrich_found : Json → Option Submission → Enriched
enrich_found vote none = unchanged
enrich_found vote (some entry) = item_feedback (emoji_of vote) entry

abbrev pub enrich_url : Json → Members → List Submission → Enriched
unfolding last_with find_or
enrich_url (string url) d submissions =
    if url == ""
    then unchanged
    else enrich_found (find_or "vote" (string "unknown") d) (last_with url submissions)
enrich_url _ d submissions = unchanged

-- The argument is what `json.loads` makes of the content; texts are the only urls.
unfoldable pub enrich_item_feedback : String ⊎ Json → List Submission → Enriched
unfolding find find_or last_with
enrich_item_feedback (inr (object d)) submissions =
    if is_url "item_feedback" (find_or "type" (string "") d)
    then enrich_url (find_or "url" (string "") d) d submissions
    else unchanged
enrich_item_feedback _ submissions = unchanged

abbrev pub is_success : Waited → Bool
is_success (answered m queue unread) = truthy (success_of m)
is_success (timed_out queue) = false

-- SubmitItemHandler.handle, with the ledger: `now` is the time in ISO format.
unfoldable pub submit_item :
    ShowLibrary
    → Bool
    → String
    → String
    → String
    → String
    → Members
    → String
    → List (List Message)
    → Dispatcher
    → List Submission
    → Handled × List Submission
unfolding submit_item_handle persist_submission wait_for_matching_response
submit_item lib writable now item_type title url metadata request_id rounds d submissions =
    let waited = wait_for_matching_response request_id rounds (d.responses submit_item_responses) in
    let entry : Submission = record {
      url = string url;
      item_type = string item_type;
      title = string title;
      metadata = metadata;
      submitted_at = now;
    } in
    (
      submit_item_handle lib item_type title url metadata request_id rounds d,
      if is_success waited then persist_submission writable entry submissions else submissions,
    )
