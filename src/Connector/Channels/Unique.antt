-- ===== src/Connector/Channels/Unique.antt =====
-- No two agents share a channel name, and channels that are configured already are left alone.
use tri_onyx.Base.{
  String, List, [], ◌∷◌, Option, none, some, ◌==◌, if◌then◌else◌, ◌≡◌, sym, ap, ◌∙◌, arith, inl,
  inr, Bool-cases, Option-cases, String_eq,
}
use tri_onyx.Dict.{Dict, get, put}
use tri_onyx.Dict.Laws.{get-put}
use tri_onyx.Connector.Channels.{
  NameLibrary, Binding, RoomConfig, or_blank, first_free, candidates, unique_name, wants_channel,
  resolve, resolve_names, channel_of, merge,
}

first_free-free :
    (cs : List String) (taken : Dict String String) (name : String)
    → first_free cs taken ≡ some name
    → get name taken ≡ none
unfolding first_free
first_free-free [] taken name h = absurd (ground arith)
first_free-free (c ∷ cs) taken name h = elim (Option-cases (get c taken)) [
  | inl free ↦
      let same : c ≡ name = ground (arith, rw (free, first_free) at h) in
      ap (λ k. get k taken) (sym same) ∙ free
  | inr (a, e) ↦ first_free-free cs taken name (rw (e, first_free) at h)
]

-- Each name that was given stands in `seen` with its agent.
Recorded : Dict String String → Dict String String → Type 0
Recorded names seen = (a n : String) → get a names ≡ some n → get n seen ≡ some a

Recorded-nil : Recorded [] []
unfolding Recorded get
Recorded-nil a n h = absurd (ground arith)

Recorded-put :
    (agent name : String) (names seen : Dict String String)
    → get name seen ≡ none
    → Recorded names seen
    → Recorded (put agent name names) (put name agent seen)
unfolding Recorded
Recorded-put agent name names seen free h a n given = ground (
  arith,
  get-put agent a name names,
  get-put name n agent seen,
  String_eq.equals_iff agent a,
  String_eq.equals_iff name n,
  given,
  h a n,
  free,
  ap (λ k. get k seen),
)

module _ (lib : NameLibrary) where
  unique_name-free :
      (repo prefix : String) (taken : Dict String String) (name : String)
      → unique_name lib repo prefix taken ≡ some name
      → get name taken ≡ none
  unfolding unique_name
  unique_name-free repo prefix taken name h =
      first_free-free (candidates lib repo prefix) taken name h

  resolve-Recorded :
      (prefix : String) (bs : List Binding) (names seen : Dict String String)
      (r : Dict String String × Dict String String)
      → resolve lib prefix bs names seen ≡ some r
      → Recorded names seen
      → Recorded r.0 r.1
  unfolding resolve Recorded
  resolve-Recorded prefix [] names seen r e h =
      let same : (names, seen) ≡ r = ground (arith, e) in
      λ a n given.
        ap (get n) (sym (ap (λ x. x.1) same)) ∙ h a n (ap (get a) (ap (λ x. x.0) same) ∙ given)
  resolve-Recorded prefix (b ∷ bs) names seen r e h = elim (Bool-cases (wants_channel lib b)) [
    | inr has_one ↦ resolve-Recorded prefix bs names seen r (rw (has_one, resolve) at e) h
    | inl wants ↦ elim (Option-cases b.agent) [
      | inl nobody ↦ absurd (ground (arith, rw (wants, resolve, nobody) at e))
      | inr (agent, known) ↦
          elim (Option-cases (unique_name lib (or_blank b.github_repo) prefix seen)) [
            | inl full ↦ absurd (ground (arith, rw (wants, resolve, known, full) at e))
            | inr (name, free) ↦
                resolve-Recorded prefix bs (put agent name names) (put name agent seen) r
                  (rw (wants, resolve, known, free) at e)
                  (Recorded-put agent name names seen
                    (unique_name-free (or_blank b.github_repo) prefix seen name free) h)
          ]
    ]
  ]

  -- No two agents get the same channel name, whatever their repositories are called.
  pub resolve_names_unique :
      (bindings : List Binding) (prefix : String) (names : Dict String String) (a b name : String)
      → resolve_names lib bindings prefix ≡ some names
      → get a names ≡ some name
      → get b names ≡ some name
      → a ≡ b
  unfolding resolve_names Recorded
  resolve_names_unique bindings prefix names a b name e of_a of_b =
      elim (Option-cases (resolve lib prefix bindings [] [])) [
        | inl failed ↦ absurd (ground (arith, rw (failed, resolve_names) at e))
        | inr (r, done) ↦
            let same : r.0 ≡ names = ground (arith, rw (done, resolve_names) at e) in
            let recorded = resolve-Recorded prefix bindings [] [] r done Recorded-nil in
            ground (
              arith,
              recorded a name (ap (get a) same ∙ of_a),
              recorded b name (ap (get b) same ∙ of_b),
            )
      ]

-- A channel that is configured already keeps its agent and its mode, whatever the gateway binds.
pub merge_keeps_rooms :
    (ensure_channel : String → Option String) (desired : Dict String String) (bs : List Binding)
    (rooms : Dict String RoomConfig) (channel_id : String) (room : RoomConfig)
    → get channel_id rooms ≡ some room
    → get channel_id (merge ensure_channel desired bs rooms) ≡ some room
unfolding merge
merge_keeps_rooms ensure_channel desired [] rooms channel_id room h = h
merge_keeps_rooms ensure_channel desired (b ∷ bs) rooms channel_id room h =
    merge_keeps_rooms ensure_channel desired bs _ channel_id room
      (one_binding (or_blank b.agent) (channel_of ensure_channel desired b))
  where
    fresh :
        (agent c : String)
        → get channel_id (elim (get c rooms) [
          | some _ ↦ rooms
          | none ↦ put c (record { agent = agent; mode = "all" }) rooms
        ])
          ≡ some room
    fresh agent c = elim (Option-cases (get c rooms)) [
      | inr (r, e) ↦ rw e h
      | inl e ↦ rw e (
          ground (
            arith,
            get-put c channel_id (record { agent = agent; mode = "all" }) rooms,
            String_eq.equals_iff c channel_id,
            ap (λ k. get k rooms),
            e,
            h,
          ))
    ]

    one_binding :
        (agent c : String)
        → get channel_id (
            if agent == "" then rooms else if c == "" then rooms else elim (get c rooms) [
              | some _ ↦ rooms
              | none ↦ put c (record { agent = agent; mode = "all" }) rooms
            ])
          ≡ some room
    one_binding agent c = elim (Bool-cases (agent == "")) [
      | inl e ↦ rw e h
      | inr e ↦ elim (Bool-cases (c == "")) [
        | inl f ↦ rw (e, f) h
        | inr f ↦ rw (e, f) (fresh agent c)
      ]
    ]
