-- ===== src/Prelude/Lists.antt =====
-- Lists measured by native numbers, and the sets of identifiers that the program keeps in tuples.
use Prim.Native.Nat.{ℕ, zero, suc}
use mathlib.Core.Path.{◌≡◌, refl}
use mathlib.Core.Bool.{Bool, true, false, ◌&&◌, ◌||◌, not}
use mathlib.Core.List.{List, [], ◌∷◌}
use native.Mathlib.Omega.{arith}
use newtaipei_appraisal_revi.Prelude.Tests.{eqb, if◌then◌else◌}

module _ {ℓ} {A : Type ℓ} where
  abbrev pub length : List A → ℕ
  length [] = 0
  length (x ∷ xs) = suc (length xs)

  abbrev pub is_empty : List A → Bool
  is_empty [] = true
  is_empty (x ∷ xs) = false

  abbrev pub take : ℕ → List A → List A
  take zero xs = []
  take (suc n) [] = []
  take (suc n) (x ∷ xs) = x ∷ take n xs

  abbrev pub All {κ} : (A → Type κ) → List A → Type κ
  All P [] = Unit
  All P (x ∷ xs) = P x × All P xs

  -- `[x for x in xs if p(x)]`
  abbrev pub select : (A → Bool) → List A → List A
  select p [] = []
  select p (x ∷ xs) = let rest = select p xs in if p x then x ∷ rest else rest

-- `x in xs`
abbrev pub member : ℕ → List ℕ → Bool
member x [] = false
member x (y ∷ ys) = eqb x y || member x ys

-- `tuple(item for item in xs if item != x)`
abbrev pub without : ℕ → List ℕ → List ℕ
without x [] = []
without x (y ∷ ys) = let rest = without x ys in if eqb y x then rest else y ∷ rest

-- `tuple(dict.fromkeys(xs))`: the first occurrence of each item, in order.
abbrev pub unique : List ℕ → List ℕ
unique [] = []
unique (x ∷ xs) = x ∷ without x (unique xs)

-- `len(set(xs)) == len(xs)`
abbrev pub no_duplicates : List ℕ → Bool
no_duplicates [] = true
no_duplicates (x ∷ xs) = not (member x xs) && no_duplicates xs

member-without : (x y : ℕ) (ys : List ℕ) → member y ys ≡ false → member y (without x ys) ≡ false
member-without x y [] h = refl
member-without x y (z ∷ zs) h = ground (arith, member-without x y zs)

member-without_self : (x : ℕ) (ys : List ℕ) → member x (without x ys) ≡ false
member-without_self x [] = refl
member-without_self x (y ∷ ys) = ground (arith, member-without_self x ys)

pub no_duplicates-without :
    (x : ℕ) (ys : List ℕ) → no_duplicates ys ≡ true → no_duplicates (without x ys) ≡ true
no_duplicates-without x [] h = refl
no_duplicates-without x (y ∷ ys) h =
    ground (arith, no_duplicates-without x ys, member-without x y ys)

pub no_duplicates-unique : (xs : List ℕ) → no_duplicates (unique xs) ≡ true
no_duplicates-unique [] = refl
no_duplicates-unique (x ∷ xs) = ground (
  arith,
  no_duplicates-without x (unique xs) (no_duplicates-unique xs),
  member-without_self x (unique xs),
)

pub is_empty-unique : (xs : List ℕ) → is_empty (unique xs) ≡ is_empty xs
is_empty-unique [] = refl
is_empty-unique (x ∷ xs) = refl
