-- ===== src/Prelude/Sets.antt =====
-- Python's `in`, `set(a) <= set(b)`, `len(set(a)) == len(a)` and `==` on tuples, by an equality test.
use mathlib.Core.Path.{◌≡◌, refl}
use mathlib.Core.Bool.{Bool, true, false, ◌&&◌, ◌||◌, not}
use mathlib.Core.List.{List, [], ◌∷◌}
use native.Mathlib.Omega.{arith}
use newtaipei_appraisal_revi.Prelude.Lists.{select}
use newtaipei_appraisal_revi.Prelude.Keys.{Eq, ◌==◌, beq_refl}

module _ {ℓ} {A : Type ℓ} ⦃e : Eq A⦄ where
  abbrev pub is_in : A → List A → Bool
  is_in x [] = false
  is_in x (y ∷ ys) = x == y || is_in x ys

  abbrev pub all_in : List A → List A → Bool
  all_in [] ys = true
  all_in (x ∷ xs) ys = is_in x ys && all_in xs ys

  abbrev pub distinct : List A → Bool
  distinct [] = true
  distinct (x ∷ xs) = not (is_in x xs) && distinct xs

  abbrev pub same_list : List A → List A → Bool
  same_list [] [] = true
  same_list (x ∷ xs) (y ∷ ys) = x == y && same_list xs ys
  same_list _ _ = false

  pub same_list_refl : (xs : List A) → same_list xs xs ≡ true
  same_list_refl [] = refl
  same_list_refl (x ∷ xs) = rw (beq_refl x, same_list_refl xs)

  is_in-select :
      (p : A → Bool) (x : A) (xs : List A) → is_in x xs ≡ false → is_in x (select p xs) ≡ false
  is_in-select p x [] h = refl
  is_in-select p x (y ∷ ys) h = ground (arith, is_in-select p x ys)

  pub distinct-select :
      (p : A → Bool) (xs : List A) → distinct xs ≡ true → distinct (select p xs) ≡ true
  distinct-select p [] h = refl
  distinct-select p (x ∷ xs) h = ground (arith, distinct-select p xs, is_in-select p x xs)

  -- What is selected from a part is a part.
  pub all_in-select :
      (p : A → Bool) (xs ys : List A) → all_in xs ys ≡ true → all_in (select p xs) ys ≡ true
  all_in-select p [] ys h = refl
  all_in-select p (x ∷ xs) ys h = ground (arith, all_in-select p xs ys)

  -- Everything that is selected by membership is a member.
  pub all_in-members : (xs ys : List A) → all_in (select (λ x. is_in x ys) xs) ys ≡ true
  all_in-members [] ys = refl
  all_in-members (x ∷ xs) ys = ground (arith, all_in-members xs ys)
