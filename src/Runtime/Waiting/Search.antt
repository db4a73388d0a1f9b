-- ===== src/Runtime/Waiting/Search.antt =====
-- runtime/agent_runner.py: the loops that wait for one message find it and lose none.
use tri_onyx.Base.{
  ℕ, ◌+◌, List, [], ◌∷◌, ◌++◌, Bool, true, false, ◌≡◌, ◌≤◌, refl, sym, ◌∙◌, inl, inr, All,
  if◌then◌else◌, Bool-cases, arith, ◌<◌, length, length-append,
}
use mathlib.Core.List.{append_assoc, append-nil}
use mathlib.Core.Path.{subst}
use tri_onyx.Runtime.Protocol.Classes.{Message}
use tri_onyx.Runtime.Waiting.{
  Waited, answered, timed_out, take_first, wait_for, take_next, search_for,
}

-- How many messages of a list pass a test.
abbrev pub count : (Message → Bool) → List Message → ℕ
count p [] = 0
count p (m ∷ ms) = (if p m then 1 else 0) + count p ms

count-append :
    (p : Message → Bool) (xs ys : List Message) → count p (xs ++ ys) ≡ count p xs + count p ys
count-append p [] ys = omega arith
count-append p (x ∷ xs) ys = omega (arith, count-append p xs ys)

abbrev pub count_all : (Message → Bool) → List (List Message) → ℕ
count_all p [] = 0
count_all p (ms ∷ rounds) = count p ms + count_all p rounds

-- The messages of a result: the answer, the queue, and those that are still to come.
abbrev pub count_result : (Message → Bool) → Waited → ℕ
count_result p (answered m queue unread) =
    (if p m then 1 else 0) + (count p queue + count_all p unread)
count_result p (timed_out queue) = count p queue

-- An answer is one that the caller asked for.
abbrev pub IsOurs : (Message → Bool) → Waited → Type 0
IsOurs ours (answered m queue unread) = ours m ≡ true
IsOurs ours (timed_out queue) = Unit

abbrev pub Got : Message → Waited → Type 0
Got m (answered n queue unread) = n ≡ m
Got m (timed_out queue) = ⊥

module _ (ours : Message → Bool) where
  take_first-keeps :
      (p : Message → Bool) (rounds : List (List Message)) (retry : List Message → Waited)
      → ((queue : List Message) → count_result p (retry queue) ≡ count p queue + count_all p rounds)
      → (queue : List Message)
      → count_result p (take_first ours rounds retry queue) ≡ count p queue + count_all p rounds
  unfolding take_first
  take_first-keeps p rounds retry h [] = h []
  take_first-keeps p rounds retry h (m ∷ queue) = elim (Bool-cases (ours m)) [
    | inl e ↦ rw e (omega arith)
    | inr e ↦ rw e (omega (arith, h (queue ++ (m ∷ [])), count-append p queue (m ∷ [])))
  ]

  -- Whether or not the message comes, the queue keeps every other message, each as often as it was
  -- there or arrived.
  pub wait_for_keeps :
      (p : Message → Bool) (rounds : List (List Message)) (queue : List Message)
      → count_result p (wait_for ours rounds queue) ≡ count p queue + count_all p rounds
  unfolding wait_for
  wait_for_keeps p [] queue = omega arith
  wait_for_keeps p (arrived ∷ rounds) queue = omega (
    arith,
    take_first-keeps p rounds (wait_for ours rounds) (wait_for_keeps p rounds) (queue ++ arrived),
    count-append p queue arrived,
  )

  take_next-keeps :
      (p : Message → Bool) (rounds : List (List Message))
      (retry : List Message → List Message → Waited)
      → ((queue unmatched : List Message)
          → count_result p (retry queue unmatched)
            ≡ count p queue + (count p unmatched + count_all p rounds))
      → (queue unmatched : List Message)
      → count_result p (take_next ours rounds retry queue unmatched)
        ≡ count p queue + (count p unmatched + count_all p rounds)
  unfolding take_next
  take_next-keeps p rounds retry h [] unmatched = h [] unmatched
  take_next-keeps p rounds retry h (m ∷ queue) unmatched = elim (Bool-cases (ours m)) [
    | inl e ↦ rw e (omega (arith, count-append p queue unmatched))
    | inr e ↦
        rw e (omega (arith, h queue (unmatched ++ (m ∷ [])), count-append p unmatched (m ∷ [])))
  ]

  pub search_for_keeps :
      (p : Message → Bool) (rounds : List (List Message)) (queue unmatched : List Message)
      → count_result p (search_for ours rounds queue unmatched)
        ≡ count p queue + (count p unmatched + count_all p rounds)
  unfolding search_for
  search_for_keeps p [] queue unmatched = omega (arith, count-append p queue unmatched)
  search_for_keeps p (arrived ∷ rounds) queue unmatched = omega (
    arith,
    take_next-keeps p rounds (search_for ours rounds) (search_for_keeps p rounds) (queue ++ arrived)
        unmatched,
    count-append p queue arrived,
  )

  take_first-IsOurs :
      (rounds : List (List Message)) (retry : List Message → Waited)
      → ((queue : List Message) → IsOurs ours (retry queue))
      → (queue : List Message) → IsOurs ours (take_first ours rounds retry queue)
  unfolding take_first
  take_first-IsOurs rounds retry h [] = h []
  take_first-IsOurs rounds retry h (m ∷ queue) = elim (Bool-cases (ours m)) [
    | inl e ↦ rw e e
    | inr e ↦ rw e (h (queue ++ (m ∷ [])))
  ]

  pub wait_for-IsOurs :
      (rounds : List (List Message)) (queue : List Message)
      → IsOurs ours (wait_for ours rounds queue)
  unfolding wait_for
  wait_for-IsOurs [] queue = tt
  wait_for-IsOurs (arrived ∷ rounds) queue =
      take_first-IsOurs rounds (wait_for ours rounds) (wait_for-IsOurs rounds) (queue ++ arrived)

  -- One round for each message before the first that is the caller's, and one for that: the wait
  -- returns it, whatever else arrives in the meantime.
  pub wait_for_finds :
      (before : List Message) (m : Message) (after : List Message) (rounds : List (List Message))
      → All (λ n. ours n ≡ false) before
      → ours m ≡ true
      → length before < length rounds
      → Got m (wait_for ours rounds (before ++ (m ∷ after)))
  unfolding wait_for take_first
  wait_for_finds before m after [] hs h enough = absurd (omega (arith, enough))
  wait_for_finds [] m after (arrived ∷ rounds) hs h enough = rw h refl
  wait_for_finds (b ∷ before) m after (arrived ∷ rounds) (hb, hs) h enough =
      let turned : ((before ++ (m ∷ after)) ++ arrived) ++ (b ∷ [])
          ≡ before ++ (m ∷ (after ++ (arrived ++ (b ∷ [])))) =
        append_assoc (before ++ (m ∷ after)) arrived (b ∷ [])
        ∙ append_assoc before (m ∷ after) (arrived ++ (b ∷ [])) in
      rw (hb, turned)
        (wait_for_finds before m (after ++ (arrived ++ (b ∷ []))) rounds hs h
          (omega (arith, enough)))

-- How many messages arrive in all.
abbrev pub total : List (List Message) → ℕ
total [] = 0
total (ms ∷ rounds) = length ms + total rounds

-- Messages that are not the caller's.
abbrev pub AreOthers : (Message → Bool) → List Message → Type 0
AreOthers ours = All (λ n. ours n ≡ false)

module _ (ours : Message → Bool) where
  AreOthers-append :
      (xs ys : List Message) → AreOthers ours xs → AreOthers ours ys → AreOthers ours (xs ++ ys)
  AreOthers-append [] ys hs ks = ks
  AreOthers-append (x ∷ xs) ys (h, hs) ks = (h, AreOthers-append xs ys hs ks)

  -- A round without the caller's message: the queue is turned, and nothing else happens.
  record Turned (retry : List Message → Waited) (queue : List Message) (w : Waited) : Type 0 where
    turned : List Message
    goes_on : w ≡ retry turned
    others : AreOthers ours turned
    as_long : length turned ≡ length queue

  take_first-Turned :
      (rounds : List (List Message)) (retry : List Message → Waited) (queue : List Message)
      → AreOthers ours queue
      → Turned retry queue (take_first ours rounds retry queue)
  unfolding take_first
  take_first-Turned rounds retry [] hs = record {
    turned = [];
    goes_on = refl;
    others = tt;
    as_long = refl;
  }
  take_first-Turned rounds retry (m ∷ queue) (h, hs) = record {
    turned = queue ++ (m ∷ []);
    goes_on = rw h refl;
    others = AreOthers-append queue (m ∷ []) hs (h, tt);
    as_long = omega (arith, length-append queue (m ∷ []));
  }

  -- The wait returns the first message that is the caller's also where it arrives in a later round, behind
  -- others, if there is a round for each message that is before it.
  pub wait_for_finds_late :
      (early : List (List Message)) (before : List Message) (m : Message) (after : List Message)
      (later : List (List Message)) (queue : List Message)
      → AreOthers ours queue
      → All (AreOthers ours) early
      → AreOthers ours before
      → ours m ≡ true
      → length queue + (total early + length before) ≤ length later
      → Got m (wait_for ours (early ++ ((before ++ (m ∷ after)) ∷ later)) queue)
  unfolding wait_for
  wait_for_finds_late [] before m after later queue hq he hb h enough =
      subst (λ q. Got m (take_first ours later (wait_for ours later) q))
        (append-nil ((queue ++ before) ++ (m ∷ after)) ∙ append_assoc queue before (m ∷ after))
        (wait_for_finds ours (queue ++ before) m after ([] ∷ later)
          (AreOthers-append queue before hq hb) h
          (omega (arith, length-append queue before, enough)))
  wait_for_finds_late (arrived ∷ early) before m after later queue hq (ha, he) hb h enough =
      let rounds = early ++ ((before ++ (m ∷ after)) ∷ later) in
      let t =
        take_first-Turned rounds (wait_for ours rounds) (queue ++ arrived)
          (AreOthers-append queue arrived hq ha) in
      subst (Got m) (sym t.goes_on) (
        wait_for_finds_late early before m after later t.turned t.others he hb h
          (omega (arith, length-append queue arrived, t.as_long, enough)))
