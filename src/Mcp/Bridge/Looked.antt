-- ===== src/Mcp/Bridge/Looked.antt =====
-- What a call of `ask` finds under its key, once parked turns have expired.
use Prim.Native.String.{◌++◌}
use tri_onyx.Base.{
  ℕ, ◌+◌, ◌≤◌, String, Bool, true, false, [], ◌∷◌, Option, none, some, ◌==◌, ◌≡◌, ◌≢◌, ◌⊎◌, inl,
  inr, refl, sym, ap, ◌∙◌, arith, Bool-cases, Option-cases, ℕ_eq, Key_eq, equals_refl,
  if◌then◌else◌,
}
use mathlib.Core.Path.{subst}
use tri_onyx.Dict.{Dict, get}
use tri_onyx.Dict.Laws.{get-put, get-remove, get-remove_self}
use tri_onyx.Mcp.Bridge.{Key, Turn, Future, unsettled, replied, failed, Bridge, update}
use tri_onyx.Mcp.Bridge.Calls.{
  drop, TurnStatus, told, gateway_error, settled, status, is_uncollected, expire_each,
  expire_parked, Found, parked, running, look, ask_look,
}

-- A turn that has not finished, or for which a call waits, or that finished at most `ttl` ago.
abbrev pub IsKeptFor : ℕ → ℕ → Turn → Type 0
IsKeptFor now ttl t =
    (t.finished_at ≡ none)
    ⊎ (t.waiters ≢ 0)
    ⊎ ((at : ℕ) × (t.finished_at ≡ some at) × (now ≤ at + ttl))

IsKeptFor-is_uncollected :
    (now ttl : ℕ) (t : Turn) → IsKeptFor now ttl t → is_uncollected now ttl t ≡ false
unfolding is_uncollected
IsKeptFor-is_uncollected now ttl t (inl e) = rw (is_uncollected, e) refl
IsKeptFor-is_uncollected now ttl t (inr (inl waited)) = elim (Option-cases t.finished_at) [
  | inl e ↦ rw (is_uncollected, e) refl
  | inr (at, e) ↦ rw (is_uncollected, e) (ground (arith, waited))
]
IsKeptFor-is_uncollected now ttl t (inr (inr (at, e, recent))) =
    rw (is_uncollected, e) (ground (arith, recent))

quiet-ttl : (f : Turn → Turn) (j : ℕ) (b : Bridge) → (update j f b).parked_ttl ≡ b.parked_ttl
unfolding update
quiet-ttl f j b = elim (Option-cases (get j b.heap)) [
  | inl e ↦ rw (update, e) refl
  | inr (u, e) ↦ rw (update, e) refl
]

drop-ttl : (k : Key) (j : ℕ) (b : Bridge) → (drop k j b).parked_ttl ≡ b.parked_ttl
unfolding drop
drop-ttl k j b =
    let quiet = quiet-ttl (λ u. record u { watching = false }) j b in
    elim (Option-cases (get k b.turns)) [
      | inl e ↦ rw (drop, e) quiet
      | inr (i, e) ↦ elim (Bool-cases (i == j)) [
        | inl same ↦ rw (drop, e, same) quiet
        | inr other ↦ rw (drop, e, other) quiet
      ]
    ]

abbrev uncollected_in : ℕ → ℕ → Option Turn → Bool
uncollected_in now ttl none = false
uncollected_in now ttl (some t) = is_uncollected now ttl t

module _ (key : Key) (id : ℕ) (t : Turn) where
  one_of_two :
      (now ttl : ℕ) (u : Turn)
      → some u ≡ some t
      → is_uncollected now ttl u ≡ true
      → is_uncollected now ttl t ≡ false
      → ⊥
  one_of_two now ttl u same goes kept = ground (arith, ap (uncollected_in now ttl) same, goes, kept)

  -- The key holds the turn.
  abbrev pub IsAt : Bridge → Type 0
  IsAt b = (get key b.turns ≡ some id) × (get id b.heap ≡ some t)

  quiet-heap :
      (f : Turn → Turn) (j : ℕ) (b : Bridge)
      → (j == id) ≡ false
      → get id b.heap ≡ some t
      → get id (update j f b).heap ≡ some t
  unfolding update
  quiet-heap f j b apart here = elim (Option-cases (get j b.heap)) [
    | inl e ↦ rw (update, e) here
    | inr (u, e) ↦ rw (update, e) (get-put j id (f u) b.heap ∙ rw apart here)
  ]

  quiet-turns : (f : Turn → Turn) (j : ℕ) (b : Bridge) → (update j f b).turns ≡ b.turns
  unfolding update
  quiet-turns f j b = elim (Option-cases (get j b.heap)) [
    | inl e ↦ rw (update, e) refl
    | inr (u, e) ↦ rw (update, e) refl
  ]

  drop-heap :
      (k : Key) (j : ℕ) (b : Bridge)
      → (j == id) ≡ false
      → get id b.heap ≡ some t
      → get id (drop k j b).heap ≡ some t
  unfolding drop
  drop-heap k j b apart here =
      let quiet = quiet-heap (λ u. record u { watching = false }) j b apart here in
      elim (Option-cases (get k b.turns)) [
        | inl e ↦ rw (drop, e) quiet
        | inr (i, e) ↦ elim (Bool-cases (i == j)) [
          | inl same ↦ rw (drop, e, same) quiet
          | inr other ↦ rw (drop, e, other) quiet
        ]
      ]

  drop-turns :
      (k : Key) (j : ℕ) (b : Bridge)
      → (j == id) ≡ false
      → get key b.turns ≡ some id
      → get key (drop k j b).turns ≡ some id
  unfolding drop
  drop-turns k j b apart current =
      let quiet = ap (get key) (quiet-turns (λ u. record u { watching = false }) j b) ∙ current in
      elim (Option-cases (get k b.turns)) [
        | inl e ↦ rw (drop, e) quiet
        | inr (i, e) ↦ elim (Bool-cases (i == j)) [
          | inr other ↦ rw (drop, e, other) quiet
          | inl same ↦
              rw (drop, e, same)
                (get-remove k key b.turns ∙ elim (Bool-cases (k == key)) [
                  | inr elsewhere ↦ rw elsewhere current
                  | inl here ↦ absurd (
                      ground (
                        arith,
                        apart,
                        same,
                        e,
                        current,
                        ℕ_eq.equals_iff i j,
                        ℕ_eq.equals_iff j id,
                        ap (λ x. get x b.turns) ((Key_eq.equals_iff k key).0 here),
                      ))
                ])
        ]
      ]

  same_turn :
      (j : ℕ) (u : Turn) (b : Bridge)
      → (j == id) ≡ true
      → get j b.heap ≡ some u
      → get id b.heap ≡ some u
  same_turn j u b same e = sym (ap (λ i. get i b.heap) ((ℕ_eq.equals_iff j id).0 same)) ∙ e

  -- Only turns that nobody collects are dropped, so this one stays.
  expire_each-IsAt :
      (now : ℕ) (d : Dict Key ℕ) (b : Bridge)
      → is_uncollected now b.parked_ttl t ≡ false
      → IsAt b
      → IsAt (expire_each now d b)
  unfolding expire_each
  expire_each-IsAt now [] b kept h = h
  expire_each-IsAt now ((k, j) ∷ d) b kept (current, here) =
      let step = λ (o : Option Turn). expire_each now d (elim o [
        | none ↦ b
        | some u ↦ if is_uncollected now b.parked_ttl u then drop k j b else b
      ]) in
      let same_step : (b' : Bridge) (o : Option Turn)
          → get j b.heap ≡ o
          → step o ≡ expire_each now d b'
          → IsAt (expire_each now d b')
          → IsAt (expire_each now ((k, j) ∷ d) b) =
        λ b' o e f h. subst IsAt (sym (ap step e ∙ f)) h in
      elim (Option-cases (get j b.heap)) [
        | inl e ↦ same_step b none e refl (expire_each-IsAt now d b kept (current, here))
        | inr (u, e) ↦ elim (Bool-cases (is_uncollected now b.parked_ttl u)) [
          | inr stays ↦
              same_step b (some u) e (rw stays refl) (expire_each-IsAt now d b kept (current, here))
          | inl goes ↦
              let apart : (j == id) ≡ false = elim (Bool-cases (j == id)) [
                | inr other ↦ other
                | inl same ↦
                    absurd (
                      one_of_two now b.parked_ttl u (sym (same_turn j u b same e) ∙ here) goes kept)
              ] in
              same_step (drop k j b) (some u) e (rw goes refl) (
                expire_each-IsAt now d (drop k j b)
                  (ap (λ ttl. is_uncollected now ttl t) (drop-ttl k j b) ∙ kept)
                  (drop-turns k j b apart current, drop-heap k j b apart here))
        ]
      ]

  -- The key is free once its turn has been dropped.
  dropped_free : (b : Bridge) → get key b.turns ≡ some id → get key (drop key id b).turns ≡ none
  unfolding drop
  dropped_free b e = rw (drop, e, equals_refl id) (get-remove_self key b.turns)

  -- What a call is told of a turn that is settled, and of one that is not.
  abbrev pub IsTold : ℕ → Found × Bridge → Type 0
  IsTold now r =
      ((t.future ≡ unsettled) × (r.0 ≡ running id) × (get key r.1.turns ≡ some id))
      ⊎ ((reply : String) × (u : TurnStatus) × (t.future ≡ replied reply)
          × (r.0 ≡ parked (told u))
          × (u.reply ≡ reply)
          × (u.pending ≡ false)
          × (u.stale ≡ true)
          × (u.prompt ≡ t.message)
          × (get key r.1.turns ≡ none))
      ⊎ ((error : String) × (t.future ≡ failed error)
          × (r.0
              ≡ parked (
                  gateway_error (
                    error
                    ++ (" (That is the outcome of the earlier message \""
                        ++ (t.message
                            ++ "\" — the message you just sent was not delivered; send it again.)")))))
          × (get key r.1.turns ≡ none))

  look-IsTold : (now : ℕ) (b : Bridge) → IsAt b → IsTold now (look key now b)
  unfolding look settled status
  look-IsTold now b (current, here) = by_future t.future refl
    where
      by_future : (f : Future) → t.future ≡ f → IsTold now (look key now b)
      by_future unsettled e = inl (rw (look, current, here, settled, e) (refl, refl, current))
      by_future (replied reply) e = inr (
          inl (
            rw (look, current, here, settled, e)
              (
                reply,
                status false reply true now t,
                refl,
                refl,
                refl,
                refl,
                refl,
                refl,
                dropped_free b current,
              )))
      by_future (failed error) e =
          inr
            (inr (rw (look, current, here, settled, e) (error, refl, refl, dropped_free b current)))

  -- A call that finds a turn under its key that has not been left uncollected for longer than the time for
  -- parked turns, once those that have been are dropped: an unsettled one is polled and stays; of a settled one
  -- the call gets the reply or the error, with the message that it answers, and the key is free.
  pub ask_look_tells :
      (now : ℕ) (b : Bridge)
      → get key b.turns ≡ some id
      → get id b.heap ≡ some t
      → IsKeptFor now b.parked_ttl t
      → IsTold now (ask_look key now b)
  unfolding ask_look expire_parked
  ask_look_tells now b current here kept = look-IsTold now (expire_parked now b) (
      expire_each-IsAt now b.turns b (IsKeptFor-is_uncollected now b.parked_ttl t kept)
        (current, here))
