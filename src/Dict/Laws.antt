-- ===== src/Dict/Laws.antt =====
-- What a dict's operations do to its lookups, its size and its distinct keys.
use mathlib.Core.Path.{subst}
use tri_onyx.Base.{
  Option-cases, zero, suc, Bool, true, false, List, [], ◌∷◌, Option, none, some, ℕ, ◌+◌, ◌≤◌, ◌<◌,
  Eq, ◌==◌, if◌then◌else◌, length, ◌≡◌, refl, arith, contains, inl, inr, Bool-cases, equals_refl,
  ltb, ap,
}
use tri_onyx.Dict.{
  Dict, get, put, remove, remove_all, select, keys, min_from, min_by, IsDict, rank_of, evict_least,
  AllValues,
}

module _ {ℓ κ} {K : Type ℓ} {V : Type κ} ⦃e : Eq K⦄ where
  pub get-put :
      (k j : K) (v : V) (d : Dict K V) → get j (put k v d) ≡ (if k == j then some v else get j d)
  unfolding get put
  get-put k j v [] = refl
  get-put k j v ((i, w) ∷ d) =
      ground (arith, e.equals_iff k j, e.equals_iff i k, e.equals_iff i j, get-put k j v d)

  pub get-remove :
      (k j : K) (d : Dict K V) → get j (remove k d) ≡ (if k == j then none else get j d)
  unfolding get remove
  get-remove k j [] = ground arith
  get-remove k j ((i, w) ∷ d) =
      ground (arith, e.equals_iff k j, e.equals_iff i k, e.equals_iff i j, get-remove k j d)

  pub get-remove_all :
      (ks : List K) (j : K) (d : Dict K V)
      → get j (remove_all ks d) ≡ (if contains j ks then none else get j d)
  unfolding remove_all
  get-remove_all [] j d = refl
  get-remove_all (k ∷ ks) j d = ground (arith, get-remove_all ks j (remove k d), get-remove k j d)

  pub get-put_self : (k : K) (v : V) (d : Dict K V) → get k (put k v d) ≡ some v
  get-put_self k v d = ground (arith, get-put k k v d, equals_refl k)

  pub get-remove_self : (k : K) (d : Dict K V) → get k (remove k d) ≡ none
  get-remove_self k d = ground (arith, get-remove k k d, equals_refl k)

  pub put-IsDict : (k : K) (v : V) (d : Dict K V) → IsDict d → IsDict (put k v d)
  unfolding put get
  put-IsDict k v [] h = (refl, tt)
  put-IsDict k v ((j, w) ∷ d) (h, hs) = elim (Bool-cases (j == k)) [
    | inl same ↦ rw same (h, hs)
    | inr other ↦
        rw other
          (ground (arith, get-put k j v d, e.equals_iff k j, e.equals_iff j k), put-IsDict k v d hs)
  ]

  pub remove-IsDict : (k : K) (d : Dict K V) → IsDict d → IsDict (remove k d)
  unfolding remove get
  remove-IsDict k [] h = tt
  remove-IsDict k ((j, w) ∷ d) (h, hs) = elim (Bool-cases (j == k)) [
    | inl same ↦ rw same (remove-IsDict k d hs)
    | inr other ↦ rw other (ground (arith, get-remove k j d), remove-IsDict k d hs)
  ]

  pub remove_all-IsDict : (ks : List K) (d : Dict K V) → IsDict d → IsDict (remove_all ks d)
  unfolding remove_all
  remove_all-IsDict [] d h = h
  remove_all-IsDict (k ∷ ks) d h = remove_all-IsDict ks (remove k d) (remove-IsDict k d h)

  pub length-remove : (k : K) (d : Dict K V) → length (remove k d) ≤ length d
  unfolding remove
  length-remove k [] = ground arith
  length-remove k ((j, w) ∷ d) = ground (arith, length-remove k d)

  pub length-remove_found :
      (k : K) (v : V) (d : Dict K V) → get k d ≡ some v → length (remove k d) < length d
  unfolding remove get
  length-remove_found k v [] h = ground arith
  length-remove_found k v ((j, w) ∷ d) h =
      ground (arith, length-remove k d, length-remove_found k v d)

  pub length-remove_all : (ks : List K) (d : Dict K V) → length (remove_all ks d) ≤ length d
  unfolding remove_all
  length-remove_all [] d = ground arith
  length-remove_all (k ∷ ks) d =
      ground (arith, length-remove_all ks (remove k d), length-remove k d)

  -- An assignment adds at most one entry, and none for a key that is there.
  pub length-put : (k : K) (v : V) (d : Dict K V) → length (put k v d) ≤ length d + 1
  unfolding put
  length-put k v [] = ground arith
  length-put k v ((j, w) ∷ d) = ground (arith, length-put k v d)

  pub length-put_found :
      (k : K) (v w : V) (d : Dict K V) → get k d ≡ some w → length (put k v d) ≡ length d
  unfolding put get
  length-put_found k v w [] h = ground arith
  length-put_found k v w ((j, u) ∷ d) h = ground (arith, length-put_found k v w d)

  -- The test of a comprehension, at what a lookup finds.
  abbrev pub meets : (K → V → Bool) → K → Option V → Bool
  meets p k none = false
  meets p k (some v) = p k v

  -- Which keys a comprehension over the items collects.
  pub contains-select :
      (p : K → V → Bool) (j : K) (d : Dict K V)
      → IsDict d
      → contains j (select p d) ≡ meets p j (get j d)
  unfolding select get
  contains-select p j [] h = refl
  contains-select p j ((k, v) ∷ d) (h, hs) = elim (Bool-cases (k == j)) [
    | inl same ↦
        let eq = (e.equals_iff k j).0 same in
        rw same (ground (arith, contains-select p j d hs, eq, same, ap (λ x. get x d) eq))
    | inr other ↦ rw other (ground (arith, contains-select p j d hs, other))
  ]

  -- What a sweep leaves of a lookup: `for k in [k for k, v in d.items() if p(k, v)]: d.pop(k)`.
  abbrev pub unless : (K → V → Bool) → K → Option V → Option V
  unless p k none = none
  unless p k (some v) = if p k v then none else some v

  pub get-sweep :
      (p : K → V → Bool) (j : K) (d : Dict K V)
      → IsDict d
      → get j (remove_all (select p d) d) ≡ unless p j (get j d)
  get-sweep p j d h = rw (get-remove_all, contains-select p j d h) (ground arith)

  pub contains-keys : (j : K) (d : Dict K V) (v : V) → get j d ≡ some v → contains j (keys d) ≡ true
  unfolding keys get
  contains-keys j [] v h = cc
  contains-keys j ((k, w) ∷ d) v h = ground (arith, contains-keys j d v)

  pub get-keys : (j : K) (d : Dict K V) → contains j (keys d) ≡ true → (v : V) × (get j d ≡ some v)
  unfolding keys get
  get-keys j [] h = cc
  get-keys j ((k, w) ∷ d) h = elim (Bool-cases (k == j)) [
    | inl same ↦ (w, rw same)
    | inr other ↦ let (v, found) = get-keys j d (ground arith) in (v, rw other found)
  ]

module _ {ℓ} {K : Type ℓ} ⦃e : Eq K⦄ (f : K → ℕ) where
  min_from-le : (best : K) (ks : List K) → f (min_from f best ks) ≤ f best
  unfolding min_from
  min_from-le best [] = ground arith
  min_from-le best (k ∷ ks) =
      ground (arith, min_from-le (if ltb (f k) (f best) then k else best) ks)

  min_from-le_contains :
      (best j : K) (ks : List K) → contains j ks ≡ true → f (min_from f best ks) ≤ f j
  unfolding min_from
  min_from-le_contains best j [] h = cc
  min_from-le_contains best j (k ∷ ks) h =
      let best' = if ltb (f k) (f best) then k else best in
      ground (arith, min_from-le best' ks, min_from-le_contains best' j ks, e.equals_iff k j)

  contains-min_from : (best : K) (ks : List K) → contains (min_from f best ks) (best ∷ ks) ≡ true
  unfolding min_from
  contains-min_from best [] = ground (arith, equals_refl best)
  contains-min_from best (k ∷ ks) =
      contains_either (ltb (f k) (f best)) (contains-min_from k ks) (contains-min_from best ks)
    where
      contains_either :
          (less : Bool)
          → contains (min_from f k ks) (k ∷ ks) ≡ true
          → contains (min_from f best ks) (best ∷ ks) ≡ true
          → contains (min_from f (if less then k else best) ks) (best ∷ k ∷ ks) ≡ true
      contains_either true p q = ground arith
      contains_either false p q = ground arith

  -- The minimum is one of the candidates, and no candidate is less.
  pub min_by-contains : (ks : List K) (m : K) → min_by f ks ≡ some m → contains m ks ≡ true
  unfolding min_by
  min_by-contains [] m h = cc
  min_by-contains (k ∷ ks) m h = ground (arith, contains-min_from k ks)

  pub min_by-le : (ks : List K) (m j : K) → min_by f ks ≡ some m → contains j ks ≡ true → f m ≤ f j
  unfolding min_by
  min_by-le [] m j h c = cc
  min_by-le (k ∷ ks) m j h c =
      ground (arith, min_from-le k ks, min_from-le_contains k j ks, e.equals_iff k j)

module _ {ℓ κ} {K : Type ℓ} {V : Type κ} ⦃e : Eq K⦄ (f : V → ℕ) (most : ℕ) where
  min_by-keys : (g : K → ℕ) (d : Dict K V) → min_by g (keys d) ≡ none → length d ≡ 0
  unfolding min_by keys
  min_by-keys g [] h = refl
  min_by-keys g ((k, v) ∷ d) h = cc

  -- The loop ends with fewer than `most` entries, in as many rounds as there are entries.
  pub length-evict_least :
      (rounds : ℕ) (d : Dict K V)
      → 0 < most
      → length d ≤ rounds
      → length (evict_least f most rounds d) < most
  unfolding evict_least
  length-evict_least zero d pos h = ground arith
  length-evict_least (suc rounds) d pos h = elim (Bool-cases (ltb (length d) most)) [
    | inl small ↦ rw (small, length) (ground arith)
    | inr large ↦
        rw (large, length)
          (elim (Option-cases (min_by (rank_of f d) (keys d))) [
            | inl nobody ↦ rw (nobody, length) (ground (arith, min_by-keys (rank_of f d) d nobody))
            | inr (oldest, found) ↦
                let (v, stored) =
                  get-keys oldest d (min_by-contains (rank_of f d) (keys d) oldest found) in
                rw (found, length)
                  (length-evict_least rounds (remove oldest d) pos
                    (omega (arith, length-remove_found oldest v d stored)))
          ])
  ]

  pub evict_least_room :
      (rounds : ℕ) (d : Dict K V) → length d < most → evict_least f most rounds d ≡ d
  unfolding evict_least
  evict_least_room zero d h = refl
  evict_least_room (suc rounds) d h = ground arith

  pub evict_least-IsDict :
      (rounds : ℕ) (d : Dict K V) → IsDict d → IsDict (evict_least f most rounds d)
  unfolding evict_least
  evict_least-IsDict zero d h = h
  evict_least-IsDict (suc rounds) d h = elim (Bool-cases (ltb (length d) most)) [
    | inl small ↦ rw (small, IsDict) h
    | inr large ↦
        rw (large, IsDict)
          (elim (Option-cases (min_by (rank_of f d) (keys d))) [
            | inl nobody ↦ rw (nobody, IsDict) h
            | inr (oldest, found) ↦
                rw (found, IsDict)
                  (evict_least-IsDict rounds (remove oldest d) (remove-IsDict oldest d h))
          ])
  ]

module _ {ℓ κ μ} {K : Type ℓ} {V : Type κ} ⦃e : Eq K⦄ (P : V → Type μ) where
  pub put-AllValues : (k : K) (v : V) (d : Dict K V) → P v → AllValues P d → AllValues P (put k v d)
  unfolding put
  put-AllValues k v [] p h = (p, tt)
  put-AllValues k v ((j, w) ∷ d) p (q, h) = elim (Bool-cases (j == k)) [
    | inl same ↦ rw same (p, h)
    | inr other ↦ rw other (q, put-AllValues k v d p h)
  ]

  pub remove-AllValues : (k : K) (d : Dict K V) → AllValues P d → AllValues P (remove k d)
  unfolding remove
  remove-AllValues k [] h = tt
  remove-AllValues k ((j, w) ∷ d) (q, h) = elim (Bool-cases (j == k)) [
    | inl same ↦ rw same (remove-AllValues k d h)
    | inr other ↦ rw other (q, remove-AllValues k d h)
  ]

  pub remove_all-AllValues :
      (ks : List K) (d : Dict K V) → AllValues P d → AllValues P (remove_all ks d)
  unfolding remove_all
  remove_all-AllValues [] d h = h
  remove_all-AllValues (k ∷ ks) d h = remove_all-AllValues ks (remove k d) (remove-AllValues k d h)

  pub evict_least-AllValues :
      (f : V → ℕ) (most rounds : ℕ) (d : Dict K V)
      → AllValues P d
      → AllValues P (evict_least f most rounds d)
  unfolding evict_least
  evict_least-AllValues f most zero d h = h
  evict_least-AllValues f most (suc rounds) d h = elim (Bool-cases (ltb (length d) most)) [
    | inl small ↦ rw (small, AllValues) h
    | inr large ↦
        rw (large, AllValues)
          (elim (Option-cases (min_by (rank_of f d) (keys d))) [
            | inl nobody ↦ rw (nobody, AllValues) h
            | inr (oldest, found) ↦
                rw (found, AllValues)
                  (evict_least-AllValues f most rounds (remove oldest d)
                    (remove-AllValues oldest d h))
          ])
  ]

  pub get-AllValues : (k : K) (v : V) (d : Dict K V) → get k d ≡ some v → AllValues P d → P v
  unfolding get
  get-AllValues k v [] h all = absurd (ground arith)
  get-AllValues k v ((j, w) ∷ d) h (p, all) = elim (Bool-cases (j == k)) [
    | inl same ↦ let eq : w ≡ v = ground (arith, same) in subst P eq p
    | inr other ↦ get-AllValues k v d (rw other at h) all
  ]
