-- ===== src/Dict.antt =====
-- Python's `dict`: an association list in insertion order, which is the order of iteration.
-- An assignment to a key that is there keeps the key's place.
pub mod Laws
use tri_onyx.Base.{
  Bool, List, [], ◌∷◌, Option, none, some, ℕ, zero, suc, true, false, Eq, ◌==◌, if◌then◌else◌, ltb,
  length, ◌≡◌,
}

abbrev pub Dict {ℓ κ} : Type ℓ → Type κ → Type (ℓ ⊔ κ)
Dict K V = List (K × V)

module _ {ℓ κ} {K : Type ℓ} {V : Type κ} ⦃e : Eq K⦄ where
  -- d.get(k)
  unfoldable pub get : K → Dict K V → Option V
  get k [] = none
  get k ((j, v) ∷ d) = if j == k then some v else get k d

  -- d[k] = v
  unfoldable pub put : K → V → Dict K V → Dict K V
  put k v [] = (k, v) ∷ []
  put k v ((j, w) ∷ d) = if j == k then (j, v) ∷ d else (j, w) ∷ put k v d

  -- d.pop(k, None)
  unfoldable pub remove : K → Dict K V → Dict K V
  remove k [] = []
  remove k ((j, v) ∷ d) = let rest = remove k d in if j == k then rest else (j, v) ∷ rest

  -- for k in ks: d.pop(k, None)
  unfoldable pub remove_all : List K → Dict K V → Dict K V
  unfolding remove
  remove_all [] d = d
  remove_all (k ∷ ks) d = remove_all ks (remove k d)

  -- What the list stands for is a dict: no key twice.
  abbrev pub IsDict : Dict K V → Type κ
  IsDict [] = Unit
  IsDict ((k, v) ∷ d) = (get k d ≡ none) × IsDict d

module _ {ℓ κ} {K : Type ℓ} {V : Type κ} where
  -- [k for k, v in d.items() if p(k, v)]
  unfoldable pub select : (K → V → Bool) → Dict K V → List K
  select p [] = []
  select p ((k, v) ∷ d) = let rest = select p d in if p k v then k ∷ rest else rest

  -- list(d)
  unfoldable pub keys : Dict K V → List K
  keys [] = []
  keys ((k, v) ∷ d) = k ∷ keys d

  -- list(d.values())
  unfoldable pub values : Dict K V → List V
  values [] = []
  values ((k, v) ∷ d) = v ∷ values d

module _ {ℓ} {K : Type ℓ} where
  -- min(ks, key=f): the first of the least; `none` where Python raises ValueError
  unfoldable pub min_from : (K → ℕ) → K → List K → K
  min_from f best [] = best
  min_from f best (k ∷ ks) = min_from f (if ltb (f k) (f best) then k else best) ks

  unfoldable pub min_by : (K → ℕ) → List K → Option K
  unfolding min_from
  min_by f [] = none
  min_by f (k ∷ ks) = some (min_from f k ks)

module _ {ℓ κ} {K : Type ℓ} {V : Type κ} ⦃e : Eq K⦄ where
  -- f(d[k]) for a key of the dict
  unfoldable pub rank_of : (V → ℕ) → Dict K V → K → ℕ
  unfolding get
  rank_of f d k = elim (get k d) [ none ↦ 0 | some v ↦ f v ]

  -- while len(d) >= most: d.pop(min(d, key=lambda k: f(d[k])))
  -- Each round takes an entry out, so there are at most len(d) of them. At `most` = 0 the loop
  -- ends here on the empty dict, where `min` raises.
  unfoldable pub evict_least : (V → ℕ) → ℕ → ℕ → Dict K V → Dict K V
  unfolding rank_of keys min_by remove
  evict_least f most zero d = d
  evict_least f most (suc rounds) d = elim (ltb (length d) most) [
    | true ↦ d
    | false ↦ elim (min_by (rank_of f d) (keys d)) [
      | none ↦ d
      | some oldest ↦ evict_least f most rounds (remove oldest d)
    ]
  ]

  -- What holds of every value.
  abbrev pub AllValues {μ} : (V → Type μ) → Dict K V → Type μ
  AllValues P [] = Unit
  AllValues P ((k, v) ∷ d) = P v × AllValues P d
