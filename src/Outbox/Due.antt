-- ===== src/Outbox/Due.antt =====
-- What holds of every record that `pending_dispatches` of job_store.py returns holds of every due
-- entry of the outbox, where the limit leaves none out.
use newtaipei_appraisal_revi.Prelude.{
  ℕ, zero, suc, ◌≤◌, ◌≡◌, refl, sym, ap, ◌∙◌, subst, inl, inr, Bool, true, ◌&&◌, some, List, [],
  ◌∷◌, All, length, take, select, map, leb, Bool-cases, ◌==◌, Eq, nat_eq, pair_eq, arith,
}
use newtaipei_appraisal_revi.Prelude.Dict.{Dict, get, values}
use newtaipei_appraisal_revi.Faults.{ok}
use newtaipei_appraisal_revi.JobStore.Model.{Outbox, DispatchRecord, Store}
use newtaipei_appraisal_revi.JobStore.Dispatch.{
  insert_sorted, sort_by, is_pending, due_before, round_of, pending_dispatches,
}

module _ {A B : Type 0} (P : B → Type 0) (f : A → B) where
  All-map : (xs : List A) → All P (map f xs) → All (λ x. P (f x)) xs
  All-map [] h = tt
  All-map (x ∷ xs) (here, there) = (here, All-map xs there)

module _ {A : Type 0} (P : A → Type 0) where
  All-take : (n : ℕ) (xs : List A) → length xs ≤ n → All P (take n xs) → All P xs
  All-take n [] enough h = tt
  All-take zero (x ∷ xs) enough h = absurd (omega arith)
  All-take (suc n) (x ∷ xs) enough (here, there) = (here, All-take n xs (omega arith) there)

  All-select : (p : A → Bool) (xs : List A) → All P (select p xs) → All (λ x. p x ≡ true → P x) xs
  All-select p [] h = tt
  All-select p (x ∷ xs) h = elim (Bool-cases (p x)) [
    | inl holds ↦
        let (here, there) : P x × All P (select p xs) = rw holds at h in
        (λ _. here, All-select p xs there)
    | inr fails ↦
        let there : All P (select p xs) = rw fails at h in
        (λ holds. absurd (cc (holds, fails)), All-select p xs there)
  ]

  All-get :
      {K : Type 0} ⦃e : Eq K⦄ (d : Dict K A) (k : K) {v : A}
      → All P (values d)
      → get d k ≡ some v
      → P v
  unfolding get
  All-get [] k h known = absurd (cc known)
  All-get ((j, w) ∷ d) k {v} (here, there) known = elim (Bool-cases (j == k)) [
    | inl holds ↦
        let found : some w ≡ some v = rw holds at known in
        let same : w ≡ v = cc found in subst P same here
    | inr fails ↦ let rest : get d k ≡ some v = rw fails at known in All-get d k there rest
  ]

  module _ (le : A → A → Bool) where
    All-insert : (x : A) (ys : List A) → All P (insert_sorted le x ys) → P x × All P ys
    All-insert x [] (here, _) = (here, tt)
    All-insert x (y ∷ ys) h = elim (Bool-cases (le x y)) [
      | inl first ↦ let (here, there) : P x × All P (y ∷ ys) = rw first at h in (here, there)
      | inr later ↦
          let (here, there) : P y × All P (insert_sorted le x ys) = rw later at h in
          let (mine, rest) = All-insert x ys there in (mine, (here, rest))
    ]

    All-sort : (xs : List A) → All P (sort_by le xs) → All P xs
    All-sort [] h = tt
    All-sort (x ∷ xs) h =
        let (here, there) = All-insert x (sort_by le xs) h in (here, All-sort xs there)

module _ {A : Type 0} (le : A → A → Bool) where
  length-insert : (x : A) (ys : List A) → length (insert_sorted le x ys) ≡ suc (length ys)
  length-insert x [] = refl
  length-insert x (y ∷ ys) = elim (Bool-cases (le x y)) [
    | inl first ↦ rw first
    | inr later ↦ rw later (ap suc (length-insert x ys))
  ]

  length-sort : (xs : List A) → length (sort_by le xs) ≡ length xs
  length-sort [] = refl
  length-sort (x ∷ xs) = length-insert x (sort_by le xs) ∙ ap suc (length-sort xs)

length-select : {A : Type 0} (p : A → Bool) (xs : List A) → length (select p xs) ≤ length xs
length-select p [] = omega arith
length-select p (x ∷ xs) = ground (arith, length-select p xs)

abbrev pub due_at : ℕ → Outbox → Bool
due_at now e = is_pending e.dispatch_state && leb e.available_at now

-- The records of the due entries, and what holds of all of them.
pub due-rounds :
    (P : DispatchRecord → Type 0) (now limit : ℕ) (s : Store) {rounds : List DispatchRecord}
    → pending_dispatches now limit s ≡ ok rounds
    → length (values s.outbox) ≤ limit
    → All P rounds
    → (k : ℕ × ℕ) (e : Outbox) → get s.outbox k ≡ some e
    → due_at now e ≡ true
    → P (round_of e)
unfolding pending_dispatches
due-rounds P now limit s {rounds} found enough all k e known due =
    let due_entries = select (due_at now) (values s.outbox) in
    let ordered = sort_by due_before due_entries in
    let same : map round_of (take limit ordered) ≡ rounds = ground arith in
    let few : length ordered ≤ limit =
      let fewer = length-select (due_at now) (values s.outbox) in
      let kept = length-sort due_before due_entries in omega arith in
    let Q : Outbox → Type 0 = λ e. P (round_of e) in
    let taken : All Q (take limit ordered) =
      All-map P round_of (take limit ordered) (subst (All P) (sym same) all) in
    let due_ones = All-sort Q due_before due_entries (All-take Q limit ordered few taken) in
    All-get (λ e. due_at now e ≡ true → Q e) s.outbox k
      (All-select Q (due_at now) (values s.outbox) due_ones) known due
