-- ===== src/Connector/Chunks/Lists.antt =====
-- Slices of a text, and what `rstrip` and `lstrip` take away.
use tri_onyx.Base.{
  ℕ, zero, suc, ◌-◌, ◌≤◌, List, [], ◌∷◌, ◌++◌, Bool, true, if◌then◌else◌, nat_eq, length, ◌≡◌, refl,
  ap, ◌∙◌, arith, Bool-cases, inl, inr,
}
use tri_onyx.Base.{nat_eq_iff}

abbrev pub Text : Type 0
Text = List ℕ

-- text[:n]
abbrev pub take : ℕ → Text → Text
take zero text = []
take (suc n) [] = []
take (suc n) (c ∷ text) = c ∷ take n text

-- text[n:]
abbrev pub drop : ℕ → Text → Text
drop zero text = text
drop (suc n) [] = []
drop (suc n) (c ∷ text) = drop n text

abbrev pub cons_or_blank : (ℕ → Bool) → ℕ → Text → Text
cons_or_blank is_space c [] = if is_space c then [] else c ∷ []
cons_or_blank is_space c (d ∷ text) = c ∷ d ∷ text

-- text.rstrip()
unfoldable pub rstrip : (ℕ → Bool) → Text → Text
rstrip is_space [] = []
rstrip is_space (c ∷ text) = cons_or_blank is_space c (rstrip is_space text)

-- text.lstrip("\n")
unfoldable pub lstrip_newlines : Text → Text
lstrip_newlines [] = []
lstrip_newlines (c ∷ text) =
    let rest = lstrip_newlines text in if nat_eq c 10 then rest else c ∷ text

pub take-drop : (n : ℕ) (text : Text) → take n text ++ drop n text ≡ text
take-drop zero text = refl
take-drop (suc n) [] = refl
take-drop (suc n) (c ∷ text) = ap (λ t. c ∷ t) (take-drop n text)

pub length-take : (n : ℕ) (text : Text) → length (take n text) ≤ n
length-take zero text = omega arith
length-take (suc n) [] = omega arith
length-take (suc n) (c ∷ text) = omega (arith, length-take n text)

pub length-drop : (n : ℕ) (text : Text) → length (drop n text) ≡ length text - n
length-drop zero text = omega arith
length-drop (suc n) [] = omega arith
length-drop (suc n) (c ∷ text) = omega (arith, length-drop n text)

length-cons_or_blank :
    (is_space : ℕ → Bool) (c : ℕ) (text : Text)
    → length (cons_or_blank is_space c text) ≤ suc (length text)
length-cons_or_blank is_space c [] = elim (Bool-cases (is_space c)) [
  | inl e ↦ rw e (omega arith)
  | inr e ↦ rw e (omega arith)
]
length-cons_or_blank is_space c (d ∷ text) = omega arith

pub length-rstrip :
    (is_space : ℕ → Bool) (text : Text) → length (rstrip is_space text) ≤ length text
unfolding rstrip
length-rstrip is_space [] = omega arith
length-rstrip is_space (c ∷ text) =
    omega
      (arith, length-cons_or_blank is_space c (rstrip is_space text), length-rstrip is_space text)

pub length-lstrip : (text : Text) → length (lstrip_newlines text) ≤ length text
unfolding lstrip_newlines
length-lstrip [] = omega arith
length-lstrip (c ∷ text) = ground (arith, length-lstrip text)

-- The characters that are not white space.
abbrev pub visible : (ℕ → Bool) → Text → Text
visible is_space [] = []
visible is_space (c ∷ text) =
    let rest = visible is_space text in if is_space c then rest else c ∷ rest

pub visible-append :
    (is_space : ℕ → Bool) (xs ys : Text)
    → visible is_space (xs ++ ys) ≡ visible is_space xs ++ visible is_space ys
visible-append is_space [] ys = refl
visible-append is_space (c ∷ xs) ys = elim (Bool-cases (is_space c)) [
  | inl e ↦ rw e (visible-append is_space xs ys)
  | inr e ↦ rw e (ap (λ t. c ∷ t) (visible-append is_space xs ys))
]

visible-cons_or_blank :
    (is_space : ℕ → Bool) (c : ℕ) (text : Text)
    → visible is_space (cons_or_blank is_space c text) ≡ visible is_space (c ∷ text)
visible-cons_or_blank is_space c [] = elim (Bool-cases (is_space c)) [
  | inl e ↦ rw e refl
  | inr e ↦ rw (e, e) refl
]
visible-cons_or_blank is_space c (d ∷ text) = refl

pub visible-rstrip :
    (is_space : ℕ → Bool) (text : Text)
    → visible is_space (rstrip is_space text) ≡ visible is_space text
unfolding rstrip
visible-rstrip is_space [] = refl
visible-rstrip is_space (c ∷ text) =
    visible-cons_or_blank is_space c (rstrip is_space text)
    ∙ ap (λ t. if is_space c then t else c ∷ t) (visible-rstrip is_space text)

pub visible-lstrip :
    (is_space : ℕ → Bool) (text : Text)
    → is_space 10 ≡ true
    → visible is_space (lstrip_newlines text) ≡ visible is_space text
unfolding lstrip_newlines
visible-lstrip is_space [] h = refl
visible-lstrip is_space (c ∷ text) h = elim (Bool-cases (nat_eq c 10)) [
  | inl e ↦
      let white : is_space c ≡ true = ap is_space ((nat_eq_iff c 10).0 e) ∙ h in
      rw (e, white) (visible-lstrip is_space text h)
  | inr e ↦ rw e refl
]
