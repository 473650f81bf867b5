-- ===== src/Prelude/Dict.antt =====
-- Python's `dict` in insertion order: an assignment to a known key keeps its place.
use mathlib.Core.Path.{◌≡◌}
use mathlib.Core.Logic.{inl, inr}
use mathlib.Core.Bool.{false}
use mathlib.Core.Option.{Option, none, some}
use mathlib.Core.List.{List, [], ◌∷◌}
use newtaipei_appraisal_revi.Prelude.Tests.{if◌then◌else◌, Bool-cases}
use newtaipei_appraisal_revi.Prelude.Keys.{Eq, ◌==◌, beq_refl}

abbrev pub Dict {ℓ κ} : Type ℓ → Type κ → Type (ℓ ⊔ κ)
Dict K V = List (K × V)

module _ {ℓ κ} {K : Type ℓ} {V : Type κ} ⦃e : Eq K⦄ where
  -- `d.get(k)`
  unfoldable pub get : Dict K V → K → Option V
  get [] k = none
  get ((j, v) ∷ d) k = if j == k then some v else get d k

  -- `d[k] = v`
  unfoldable pub put : Dict K V → K → V → Dict K V
  put [] k v = (k, v) ∷ []
  put ((j, w) ∷ d) k v = let rest = put d k v in if j == k then (j, v) ∷ d else (j, w) ∷ rest

  -- `list(d.values())`
  abbrev pub values : Dict K V → List V
  values [] = []
  values ((k, v) ∷ d) = v ∷ values d

  pub get-put_self : (d : Dict K V) (k : K) (v : V) → get (put d k v) k ≡ some v
  unfolding get put
  get-put_self [] k v = rw (beq_refl k)
  get-put_self ((j, w) ∷ d) k v = elim (Bool-cases (j == k)) [
    | inl h ↦ rw (h, h)
    | inr h ↦ rw (h, h) (get-put_self d k v)
  ]

  pub get-put_ne : (d : Dict K V) (k j : K) (v : V) → (k == j) ≡ false → get (put d k v) j ≡ get d j
  unfolding get put
  get-put_ne [] k j v n = rw n
  get-put_ne ((i, w) ∷ d) k j v n = elim (Bool-cases (i == k)) [
    | inl h ↦ let other : (i == j) ≡ false = rw ((e.beq_iff i k).0 h) n in rw (h, other)
    | inr h ↦ rw (h, get-put_ne d k j v n)
  ]
