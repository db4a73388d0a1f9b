-- ===== src/Mcp/Bridge/Lost.antt =====
-- The loss of the connection: every turn that was running fails, and counts as abandoned.
use tri_onyx.Base.{
  ℕ, String, Bool, true, false, not, ◌&&◌, List, [], ◌∷◌, some, ◌==◌, if◌then◌else◌, ◌≡◌, refl, ap,
  ◌∙◌, arith, ◌⊎◌, inl, inr, Bool-cases, Option-cases, ℕ_eq, Key_eq, contains,
}
use tri_onyx.Dict.{Dict, get, values}
use tri_onyx.Dict.Laws.{get-put}
use tri_onyx.Mcp.Bridge.{
  TextLibrary, Key, Future, unsettled, replied, failed, Turn, is_done, fail, settle, Bridge, update,
  abandon, fail_and_abandon, unsettled_of, fail_all, on_disconnect,
}

Future-cases : (f : Future) → (f ≡ unsettled) ⊎ ((elim f [ unsettled ↦ false | _ ↦ true ]) ≡ true)
Future-cases unsettled = inl refl
Future-cases (replied s) = inr refl
Future-cases (failed s) = inr refl

module _ (lib : TextLibrary) (id : ℕ) where
  is_done-fail : (reason : String) (now : ℕ) (t : Turn) → is_done (fail reason now t) ≡ true
  unfolding fail settle
  is_done-fail reason now t = elim (Bool-cases (is_done t)) [
    | inl done ↦ rw (done, fail) done
    | inr running ↦ elim (Option-cases t.finished_at) [
      | inl e ↦ rw (running, fail, e, settle)
      | inr (at, e) ↦ rw (running, fail, e, settle)
    ]
  ]

  fail_done : (reason : String) (now : ℕ) (t : Turn) → is_done t ≡ true → fail reason now t ≡ t
  unfolding fail
  fail_done reason now t done = rw (done, fail)

  updated :
      (j : ℕ) (f : Turn → Turn) (u : Turn) (b : Bridge)
      → get j b.heap ≡ some u
      → get id (update j f b).heap ≡ (if j == id then some (f u) else get id b.heap)
  unfolding update
  updated j f u b e = rw (e, update) (get-put j id (f u) b.heap)

  -- What `fail_and_abandon` of one turn leaves of another, or of that one.
  one_failed :
      (reason : String) (now j : ℕ) (t : Turn) (b : Bridge)
      → get id b.heap ≡ some t
      → get id (fail_and_abandon lib reason now j b).heap
        ≡ some (if j == id then fail reason now t else t)
  unfolding fail_and_abandon abandon
  one_failed reason now j t b here = elim (Bool-cases (j == id)) [
    | inl same ↦
        let found : get j b.heap ≡ some t =
          ap (λ k. get k b.heap) ((ℕ_eq.equals_iff j id).0 same) ∙ here in
        rw (found, fail_and_abandon) (updated j (fail reason now) t b found ∙ rw same)
    | inr other ↦ elim (Option-cases (get j b.heap)) [
      | inl e ↦ rw (e, fail_and_abandon, other) here
      | inr (u, e) ↦ rw (e, fail_and_abandon) (updated j (fail reason now) u b e ∙ rw other here)
    ]
  ]

  abbrev lost : String
  lost = "Connection to the TriOnyx gateway was lost."

  all_failed :
      (js : List ℕ) (now : ℕ) (t : Turn) (b : Bridge)
      → get id b.heap ≡ some t
      → get id (fail_all lib js now b).heap ≡ some (if contains id js then fail lost now t else t)
  unfolding fail_all
  all_failed [] now t b here = here
  all_failed (j ∷ js) now t b here =
      let b' = fail_and_abandon lib lost now j b in
      elim (Bool-cases (j == id)) [
        | inl same ↦
            let first = one_failed lost now j t b here ∙ rw same in
            all_failed js now (fail lost now t) b' first
            ∙ rw (same, fail_done lost now (fail lost now t) (is_done-fail lost now t))
                (either (contains id js) (fail lost now t))
        | inr other ↦
            let first = one_failed lost now j t b here ∙ rw other in
            all_failed js now t b' first ∙ rw other
      ]
    where
      either : (c : Bool) (t : Turn) → some (if c then t else t) ≡ some t
      either true t = refl
      either false t = refl

  contains-values :
      (key : Key) (d : Dict Key ℕ) → get key d ≡ some id → contains id (values d) ≡ true
  unfolding get values
  contains-values key [] e = absurd (ground arith)
  contains-values key ((k, j) ∷ d) e = elim (Bool-cases (k == key)) [
    | inl same ↦ ground (arith, rw same at e)
    | inr other ↦ ground (arith, contains-values key d (rw other at e))
  ]

  contains-unsettled_of :
      (ids : List ℕ) (t : Turn) (b : Bridge)
      → get id b.heap ≡ some t
      → contains id (unsettled_of lib ids b) ≡ (contains id ids && not (is_done t))
  unfolding unsettled_of
  contains-unsettled_of [] t b here = refl
  contains-unsettled_of (j ∷ ids) t b here =
      let rest = contains-unsettled_of ids t b here in
      elim (Bool-cases (j == id)) [
        | inl same ↦
            let found : get j b.heap ≡ some t =
              ap (λ k. get k b.heap) ((ℕ_eq.equals_iff j id).0 same) ∙ here in
            elim (Bool-cases (is_done t)) [
              | inl done ↦ rw (found, unsettled_of, done) (rest ∙ rw done (ground arith))
              | inr running ↦ rw (found, unsettled_of, running) (ground (arith, same))
            ]
        | inr other ↦ elim (Option-cases (get j b.heap)) [
          | inl e ↦ rw (e, unsettled_of) (rest ∙ rw other)
          | inr (u, e) ↦ elim (Bool-cases (is_done u)) [
            | inl done ↦ rw (e, unsettled_of, done) (rest ∙ rw other)
            | inr running ↦ rw (e, unsettled_of, running) (ground (arith, rest, other))
          ]
        ]
      ]

  fail_unsettled :
      (reason : String) (now : ℕ) (t : Turn)
      → t.future ≡ unsettled
      → (fail reason now t).future ≡ failed reason
  unfolding fail settle
  fail_unsettled reason now t h = elim (Option-cases t.finished_at) [
    | inl e ↦ rw (h, fail, e, settle) refl
    | inr (at, e) ↦ rw (h, fail, e, settle) refl
  ]

  after_loss :
      (key : Key) (now : ℕ) (t : Turn) (b : Bridge)
      → get key b.turns ≡ some id
      → get id b.heap ≡ some t
      → get id (on_disconnect lib now b).heap ≡ some (fail lost now t)
  unfolding on_disconnect
  after_loss key now t b current here =
      let ids = unsettled_of lib (values b.turns) b in
      let listed : contains id ids ≡ not (is_done t) =
        contains-unsettled_of (values b.turns) t b here
        ∙ ap (λ c. c && not (is_done t)) (contains-values key b.turns current) in
      all_failed ids now t b here
      ∙ rw listed (elim (Bool-cases (is_done t)) [ inl done ↦ rw done | inr running ↦ rw running ])

  -- When the connection is lost, a turn that is registered under its key and has not settled fails, and the
  -- error that its callers get says that the connection was lost; a turn that had settled stays as it was.
  pub disconnect_settles :
      (key : Key) (now : ℕ) (t : Turn) (b : Bridge)
      → get key b.turns ≡ some id
      → get id b.heap ≡ some t
      → (u : Turn) × (get id (on_disconnect lib now b).heap ≡ some u)
        × (((t.future ≡ unsettled)
              × (u.future ≡ failed "Connection to the TriOnyx gateway was lost."))
            ⊎ ((is_done t ≡ true) × (u ≡ t)))
  disconnect_settles key now t b current here = (
    fail lost now t,
    after_loss key now t b current here,
    (elim (Future-cases t.future) [
      | inl running ↦ inl (running, fail_unsettled lost now t running)
      | inr done ↦ inr (done, fail_done lost now t done)
    ]),
  )
