-- ===== src/Prelude/Keys.antt =====
-- Equality tests as an interface, for the keys of dictionaries and for identifiers.
use Prim.Native.Nat.{ℕ}
use Prim.Native.String.{String}
use mathlib.Core.Path.{◌≡◌, refl, ap}
use mathlib.Core.Logic.{◌↔◌, ◌⊎◌, inl, inr}
use mathlib.Core.Bool.{Bool, true, false, ◌&&◌}
use mathlib.Core.Option.{Option, none, some}
use native.Mathlib.Omega.{arith}
use text.Mathlib.Text.{◌==◌ as str_eq}
use text.Mathlib.TextEquality.{eq_iff}
use newtaipei_appraisal_revi.Prelude.Tests.{eqb, eqb_iff, Bool-cases}

pub record Eq {ℓ} (A : Type ℓ) : Type ℓ where
  pub beq : A → A → Bool
  pub beq_iff : (x y : A) → (beq x y ≡ true) ↔ (x ≡ y)

instance abbrev pub nat_eq : Eq ℕ
nat_eq = record { beq = eqb; beq_iff = eqb_iff }

abbrev pub pair_beq : ℕ × ℕ → ℕ × ℕ → Bool
pair_beq (a, b) (c, d) = eqb a c && eqb b d

pub pair_beq_iff : (p q : ℕ × ℕ) → (pair_beq p q ≡ true) ↔ (p ≡ q)
pair_beq_iff (a, b) (c, d) = ground arith

instance abbrev pub pair_eq : Eq (ℕ × ℕ)
pair_eq = record { beq = pair_beq; beq_iff = pair_beq_iff }

instance abbrev pub string_eq : Eq String
string_eq = record { beq = str_eq; beq_iff = eq_iff }

abbrev pub text_pair_beq : String × String → String × String → Bool
text_pair_beq (a, b) (c, d) = str_eq a c && str_eq b d

pub text_pair_beq_iff : (p q : String × String) → (text_pair_beq p q ≡ true) ↔ (p ≡ q)
text_pair_beq_iff (a, b) (c, d) = ground (arith, eq_iff a c, eq_iff b d)

instance abbrev pub text_pair_eq : Eq (String × String)
text_pair_eq = record { beq = text_pair_beq; beq_iff = text_pair_beq_iff }

infix 50 ◌==◌
abbrev pub ◌==◌ {ℓ} : {A : Type ℓ} ⦃test : Eq A⦄ → A → A → Bool
◌==◌ ⦃test⦄ = test.beq

abbrev pub option_beq {ℓ} : {A : Type ℓ} → (A → A → Bool) → Option A → Option A → Bool
option_beq f none none = true
option_beq f (some a) (some b) = f a b
option_beq f _ _ = false

pub option_beq_iff {ℓ} :
    {A : Type ℓ} ⦃e : Eq A⦄ (a b : Option A) → (option_beq e.beq a b ≡ true) ↔ (a ≡ b)
option_beq_iff none none = (λ _. refl, λ _. refl)
option_beq_iff none (some b) = (λ h. cc, λ h. cc)
option_beq_iff (some a) none = (λ h. cc, λ h. cc)
option_beq_iff ⦃e⦄ (some a) (some b) =
    (λ h. ap some ((e.beq_iff a b).0 h), λ h. (e.beq_iff a b).1 (cc))

instance abbrev pub option_eq {ℓ} : {A : Type ℓ} ⦃e : Eq A⦄ → Eq (Option A)
option_eq ⦃e⦄ = record { beq = option_beq e.beq; beq_iff = option_beq_iff }

module _ {ℓ} {A : Type ℓ} ⦃e : Eq A⦄ where
  pub beq_refl : (a : A) → (a == a) ≡ true
  beq_refl a = (e.beq_iff a a).1 refl

  pub beq_ne : (a b : A) → (a == b) ≡ false → a ≡ b → ⊥
  beq_ne a b h p = cc ((e.beq_iff a b).1 p)

  -- Two values are equal, or their test answers false.
  pub beq-cases : (a b : A) → (a ≡ b) ⊎ ((a == b) ≡ false)
  beq-cases a b = elim (Bool-cases (a == b)) [ inl h ↦ inl ((e.beq_iff a b).0 h) | inr h ↦ inr h ]

-- Pairs of numbers: equal, or told apart by the test; and two ways in which the test fails.
pub pair-cases : (j r i q : ℕ) → (◌≡◌ {A = ℕ × ℕ} (j, r) (i, q)) ⊎ (pair_beq (j, r) (i, q) ≡ false)
pair-cases j r i q = beq-cases {A = ℕ × ℕ} (j, r) (i, q)

pub pair_ne_left : (j i r q : ℕ) → (j == i) ≡ false → pair_beq (j, r) (i, q) ≡ false
pair_ne_left j i r q h = ground arith

pub pair_ne_right : (j r q : ℕ) → (r == q) ≡ false → pair_beq (j, r) (j, q) ≡ false
pair_ne_right j r q h = ground arith
