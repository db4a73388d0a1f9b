-- ===== src/Runtime/Submissions/Found.antt =====
-- runtime/agent_runner.py: the ledger stays short, and votes find what was submitted.
use tri_onyx.Base.{
  ℕ, zero, suc, ◌+◌, ◌-◌, ◌≤◌, ◌<◌, List, [], ◌∷◌, ◌++◌, none, some, String, true, false, String_eq,
  ltb, length, length-append, All, ◌≡◌, refl, sym, ap, ◌∙◌, inl, inr, arith, Bool-cases,
}
use mathlib.Core.List.{append_assoc, append-nil}
use tri_onyx.Runtime.Submissions.{
  Submission, max_submissions, drop_first, keep_newest, persist_submission, is_url, last_with,
}

length-drop_first : (n : ℕ) (xs : List Submission) → length (drop_first n xs) ≡ length xs - n
length-drop_first zero xs = omega arith
length-drop_first (suc n) [] = omega arith
length-drop_first (suc n) (x ∷ xs) = omega (arith, length-drop_first n xs)

drop_first-append :
    (n : ℕ) (xs ys : List Submission)
    → n ≤ length xs
    → drop_first n (xs ++ ys) ≡ drop_first n xs ++ ys
drop_first-append zero xs ys h = refl
drop_first-append (suc n) [] ys h = absurd (omega (arith, h))
drop_first-append (suc n) (x ∷ xs) ys h = drop_first-append n xs ys (omega (arith, h))

keep_newest-short : (xs : List Submission) → length (keep_newest xs) ≤ max_submissions
unfolding keep_newest
keep_newest-short xs = ground (arith, length-drop_first (length xs - max_submissions) xs)

-- Later submissions, one after the other.
abbrev pub persist_each : List Submission → List Submission → List Submission
persist_each [] submissions = submissions
persist_each (e ∷ later) submissions = persist_each later (persist_submission true e submissions)

-- What is kept of a ledger that ends with `tail`, where that is short enough.
keeps_tail :
    (front tail : List Submission)
    → length tail ≤ max_submissions
    → (kept : List Submission) × (keep_newest (front ++ tail) ≡ kept ++ tail)
unfolding keep_newest
keeps_tail front tail h =
    let n = length (front ++ tail) - max_submissions in
    let some_of : n ≤ length front = omega (arith, length-append front tail, h) in
    elim (Bool-cases (ltb max_submissions (length (front ++ tail)))) [
      | inl e ↦ (drop_first n front, rw e (drop_first-append n front tail some_of))
      | inr e ↦ (front, rw e refl)
    ]

last_with-none :
    (url : String) (later : List Submission)
    → All (λ x. is_url url x.url ≡ false) later
    → last_with url later ≡ none
unfolding last_with
last_with-none url [] h = refl
last_with-none url (x ∷ later) (h, hs) = rw (last_with-none url later hs, h) refl

last_with-append :
    (url : String) (front : List Submission) (e : Submission) (later : List Submission)
    → is_url url e.url ≡ true
    → All (λ x. is_url url x.url ≡ false) later
    → last_with url (front ++ (e ∷ later)) ≡ some e
unfolding last_with
last_with-append url [] e later same others = rw (last_with-none url later others, same) refl
last_with-append url (y ∷ front) e later same others =
    rw (last_with-append url front e later same others) refl

persist_each-tail :
    (later tail front : List Submission)
    → length tail + length later ≤ max_submissions
    → (kept : List Submission) × (persist_each later (front ++ tail) ≡ kept ++ (tail ++ later))
unfolding persist_submission
persist_each-tail [] tail front h = (front, ap (λ t. front ++ t) (sym (append-nil tail)))
persist_each-tail (f ∷ later) tail front h =
    let tail' = tail ++ (f ∷ []) in
    let grown : length tail' ≡ length tail + 1 = omega (arith, length-append tail (f ∷ [])) in
    let (front', cut) = keeps_tail front tail' (omega (arith, grown, h)) in
    let (kept, e) = persist_each-tail later tail' front' (omega (arith, grown, h)) in
    (
      kept,
      ap (λ s. persist_each later (keep_newest s)) (append_assoc front tail (f ∷ []))
          ∙ ap (persist_each later) cut
          ∙ e
          ∙ ap (λ t. kept ++ t) (append_assoc tail (f ∷ []) later),
    )

-- A vote on an item finds the entry of its submission, as long as fewer than 200 submissions followed
-- it and none of them has its url; and the ledger never holds more than 200 entries. The file could be
-- read and written.
pub submission_found :
    (submissions later : List Submission) (entry : Submission) (url : String)
    → is_url url entry.url ≡ true
    → All (λ x. is_url url x.url ≡ false) later
    → length later < max_submissions
    → (last_with url (persist_each later (persist_submission true entry submissions)) ≡ some entry)
      × (length (persist_submission true entry submissions) ≤ max_submissions)
unfolding persist_submission
submission_found submissions later entry url same others few =
    let (front, cut) = keeps_tail submissions (entry ∷ []) (omega arith) in
    let (kept, e) = persist_each-tail later (entry ∷ []) front (omega (arith, few)) in
    (
      ap (λ s. last_with url (persist_each later s)) cut
          ∙ ap (last_with url) e
          ∙ last_with-append url kept entry later same others,
      keep_newest-short (submissions ++ (entry ∷ [])),
    )
