-- ===== src/Budget/Accounting.antt =====
-- What one call of `reserve` in competition_budget.py leaves on the row, while other workers make
-- reservations of theirs.
use newtaipei_appraisal_revi.Prelude.{
  ℕ, zero, suc, String, ◌≡◌, refl, sym, subst, ap, Bool, true, false, not, inl, inr, Bool-cases,
  Option, List, [], ◌∷◌, ◌++◌, if◌then◌else◌,
}
use newtaipei_appraisal_revi.Prelude.Dict.{Dict}
use newtaipei_appraisal_revi.Budget.{
  BudgetFault, window_expired, reservation_unknown, contended, Outcome, done, denied,
  OperationReservation, CompetitionProfile, deny_if,
}
use newtaipei_appraisal_revi.Budget.Bound.{DataPart, bound_for}
use newtaipei_appraisal_revi.Budget.Ledger.{Item, Plan, plan_of, in_window}
use newtaipei_appraisal_revi.Budget.Committed.{
  IsLedger, IsPlanned, plan_of-IsPlanned, Write, added_one, left, update_item-Write,
}
use newtaipei_appraisal_revi.Budget.Reserve.{
  Delivery, answered, lost_after, lost_before, Attempt, Verdict, finished, again, settled, deliver,
  planned, attempt, unless_finished, attempts, reserve,
}

-- Other workers make whole reservations of theirs, or none: which, by the row that they find.
pub record Foreign (profile : CompetitionProfile) (f : Option Item → Option Item) : Type 0 where
  pub wrote : Option Item → List OperationReservation
  pub adds :
      (rs : List OperationReservation) (row : Option Item)
      → IsLedger profile rs row
      → IsLedger profile (wrote row ++ rs) (f row)

-- What the others write in one attempt is written before the read, and before the write of the call.
pub record IsShared (profile : CompetitionProfile) (a : Attempt) : Type 0 where
  pub meanwhile : Foreign profile a.meanwhile
  pub interleaved : Foreign profile a.interleaved

-- What the call itself wrote, by its outcome: its reservation where it returns, nothing or its
-- reservation where the answer was lost or the window ended, and nothing on any other denial.
pub data Own (bound : OperationReservation)
    : Outcome (Unit {0}) → List OperationReservation → Type 0 where
  reserved : Own bound (done tt) (bound ∷ [])
  too_late : Own bound (denied window_expired) (bound ∷ [])
  uncertain : Own bound (denied reservation_unknown) (bound ∷ [])
  nothing : (fault : BudgetFault) → Own bound (denied fault) []

module _ (profile : CompetitionProfile) (bound : OperationReservation) where
  -- The others come in before the write where the attempt gets that far.
  abbrev in_between : Bool → Outcome Plan → List OperationReservation → List OperationReservation
  in_between true plan ys = []
  in_between false (denied fault) ys = []
  in_between false (done plan) ys = ys

  -- What the others wrote during one attempt.
  abbrev pub others_in :
      (a : Attempt) → IsShared profile a → Option Item → List OperationReservation
  others_in a shared row =
      let seen = a.meanwhile row in
      in_between a.read_fails (plan_of profile bound a.before_write seen)
        (shared.interleaved.wrote seen)
      ++ shared.meanwhile.wrote row

  abbrev if_again : Verdict → List OperationReservation → List OperationReservation
  if_again (finished o) ys = []
  if_again again ys = ys

  -- What the others wrote during a call, by the attempts that it made.
  unfoldable pub others_during :
      (n : ℕ) (readings : ℕ → Attempt)
      → ((k : ℕ) → IsShared profile (readings k))
      → Option Item
      → List OperationReservation
  others_during zero readings shared row = []
  others_during (suc n) readings shared row =
      let tried = attempt profile bound (readings 0) row in
      if_again tried.0 (others_during n (λ k. readings (suc k)) (λ k. shared (suc k)) tried.1)
      ++ others_in (readings 0) (shared 0) row

  -- A call whose window is closed makes no attempt.
  unfoldable pub others_of :
      ℕ
      → (readings : ℕ → Attempt) → ((k : ℕ) → IsShared profile (readings k))
      → Option Item
      → List OperationReservation
  unfolding others_during
  others_of start readings shared row =
      if not (in_window profile.budget start) then [] else others_during 8 readings shared row

  -- What is left of a call, or of its last attempts: the sums of `rs`, what the others wrote and
  -- what the call wrote.
  record Left (rs others : List OperationReservation) (done : Outcome (Unit {0}) × Option Item)
      : Type 0 where
    own : List OperationReservation
    ledger : IsLedger profile (own ++ (others ++ rs)) done.1
    outcome : Own bound done.0 own

  -- After one attempt: it finished, or left the row to the others.
  data Tried (rs others : List OperationReservation) : Verdict × Option Item → Type 0 where
    ended :
        (o : Outcome (Unit {0})) (row : Option Item)
        → Left rs others (o, row)
        → Tried rs others (finished o, row)
    lost : (row : Option Item) → IsLedger profile (others ++ rs) row → Tried rs others (again, row)

  window_cases :
      (late : Bool) (rs others : List OperationReservation) (row : Option Item)
      → IsLedger profile (bound ∷ (others ++ rs)) row
      → Left rs others (deny_if late window_expired, row)
  window_cases true rs others row h = record { own = bound ∷ []; ledger = h; outcome = too_late }
  window_cases false rs others row h = record { own = bound ∷ []; ledger = h; outcome = reserved }

  answered-Tried :
      (now : ℕ) (rs others : List OperationReservation) {r : Bool × Option Item}
      → Write profile bound (others ++ rs) r
      → Tried rs others (settled profile r.0 now, r.1)
  answered-Tried now rs others (added_one row h) =
      ended _ row (window_cases (not (in_window profile.budget now)) rs others row h)
  answered-Tried now rs others (left row h) = lost row h

  denied-Tried :
      (fault : BudgetFault) (rs others : List OperationReservation) (row : Option Item)
      → IsLedger profile (others ++ rs) row
      → Tried rs others (finished (denied fault), row)
  denied-Tried fault rs others row h =
      ended _ row (record { own = []; ledger = h; outcome = nothing fault })

  lost-Tried :
      (rs others : List OperationReservation) {r : Bool × Option Item}
      → Write profile bound (others ++ rs) r
      → Tried rs others (finished (denied reservation_unknown), r.1)
  lost-Tried rs others (added_one row h) =
      ended _ row (record { own = bound ∷ []; ledger = h; outcome = uncertain })
  lost-Tried rs others (left row h) = denied-Tried reservation_unknown rs others row h

  deliver-Tried :
      (d : Delivery) (plan : Plan) (now : ℕ) (rs others : List OperationReservation)
      {row : Option Item}
      → IsPlanned profile bound plan
      → IsLedger profile (others ++ rs) row
      → Tried rs others (deliver profile d plan now row)
  deliver-Tried answered plan now rs others p h =
      answered-Tried now rs others (update_item-Write profile bound (others ++ rs) plan p h)
  deliver-Tried lost_after plan now rs others p h =
      lost-Tried rs others (update_item-Write profile bound (others ++ rs) plan p h)
  deliver-Tried lost_before plan now rs others {row} p h =
      denied-Tried reservation_unknown rs others row h

  append_assoc : (xs ys zs : List OperationReservation) → (xs ++ ys) ++ zs ≡ xs ++ (ys ++ zs)
  append_assoc [] ys zs = refl
  append_assoc (x ∷ xs) ys zs = ap (λ l. x ∷ l) (append_assoc xs ys zs)

  planned-Tried :
      (o : Outcome Plan) (a : Attempt) (shared : IsShared profile a)
      (rs ys : List OperationReservation) (seen : Option Item)
      → plan_of profile bound a.before_write seen ≡ o
      → IsLedger profile (ys ++ rs) seen
      → Tried rs
          (in_between false o (shared.interleaved.wrote seen) ++ ys)
          (planned profile o a seen)
  planned-Tried (denied fault) a shared rs ys seen e h = denied-Tried fault rs ys seen h
  planned-Tried (done plan) a shared rs ys seen e h =
      let more = shared.interleaved.wrote seen in
      deliver-Tried a.delivery plan a.after_write rs (more ++ ys)
        (plan_of-IsPlanned profile bound a.before_write seen e)
        (subst (λ l. IsLedger profile l (a.interleaved seen)) (sym (append_assoc more ys rs))
          (shared.interleaved.adds (ys ++ rs) seen h))

  attempt-Tried :
      (a : Attempt) (shared : IsShared profile a) (rs : List OperationReservation)
      (row : Option Item)
      → IsLedger profile rs row
      → Tried rs (others_in a shared row) (attempt profile bound a row)
  unfolding attempt
  attempt-Tried a shared rs row h =
      let seen = shared.meanwhile.adds rs row h in
      let ys = shared.meanwhile.wrote row in
      read-Tried a.read_fails _ _ _ (
        planned-Tried (plan_of profile bound a.before_write (a.meanwhile row)) a shared rs ys
          (a.meanwhile row) refl seen)
    where
      read-Tried :
          (fails : Bool) (o : Outcome Plan) (more : List OperationReservation)
          (v : Verdict × Option Item)
          → Tried rs (in_between false o more ++ shared.meanwhile.wrote row) v
          → Tried rs
              (in_between fails o more ++ shared.meanwhile.wrote row)
              (if fails then (finished (denied reservation_unknown), a.meanwhile row) else v)
      read-Tried true o more v t =
          denied-Tried reservation_unknown rs (shared.meanwhile.wrote row) (a.meanwhile row)
            (shared.meanwhile.adds rs row h)
      read-Tried false o more v t = t

  -- What a later part of the call left, over what the others added before.
  earlier :
      (rs ys later : List OperationReservation) {r : Outcome (Unit {0}) × Option Item}
      → Left (ys ++ rs) later r
      → Left rs (later ++ ys) r
  earlier rs ys later {r} h = record {
    own = h.own;
    ledger =
        subst (λ l. IsLedger profile (h.own ++ l) r.1) (sym (append_assoc later ys rs)) h.ledger;
    outcome = h.outcome;
  }

  unless_finished-Left :
      (rs ys : List OperationReservation) {v : Verdict × Option Item}
      (rest : Option Item → Outcome (Unit {0}) × Option Item)
      (later : Option Item → List OperationReservation)
      → Tried rs ys v
      → ((qs : List OperationReservation) (row : Option Item)
          → IsLedger profile qs row
          → Left qs (later row) (rest row))
      → Left rs (if_again v.0 (later v.1) ++ ys) (unless_finished profile v rest)
  unless_finished-Left rs ys rest later (ended o row h) k = h
  unless_finished-Left rs ys rest later (lost row h) k =
      earlier rs ys (later row) (k (ys ++ rs) row h)

  attempts-Left :
      (n : ℕ) (readings : ℕ → Attempt) (shared : (k : ℕ) → IsShared profile (readings k))
      (rs : List OperationReservation) (row : Option Item)
      → IsLedger profile rs row
      → Left rs (others_during n readings shared row) (attempts profile bound n readings row)
  unfolding attempts others_during
  attempts-Left zero readings shared rs row h = record {
    own = [];
    ledger = h;
    outcome = nothing contended;
  }
  attempts-Left (suc n) readings shared rs row h =
      unless_finished-Left rs (others_in (readings 0) (shared 0) row)
        (λ row'. attempts profile bound n (λ k. readings (suc k)) row')
        (λ row'. others_during n (λ k. readings (suc k)) (λ k. shared (suc k)) row')
        (attempt-Tried (readings 0) (shared 0) rs row h)
        (λ qs row' h'. attempts-Left n (λ k. readings (suc k)) (λ k. shared (suc k)) qs row' h')

-- On a row that counts a list of reservations, while other workers add whole
-- reservations of theirs, a call of `reserve` for a known bound leaves a row that counts the list,
-- exactly what the others wrote during its attempts, and what the call wrote: its reservation, once,
-- where it returns; nothing on a denial, except that the reservation may be written where the answer
-- was lost or the window ended in between. The number of reservations and the sums of their tokens
-- and their cost stay within the limits in every case.
pub reserve-accounts :
    (profile : CompetitionProfile) (max_tokens_of : List ℕ → Option ℕ) (operation : String)
    (parameters : Dict String String) (parts : List DataPart) (start : ℕ) (readings : ℕ → Attempt)
    (shared : (k : ℕ) → IsShared profile (readings k)) (rs : List OperationReservation)
    (row : Option Item) {bound : OperationReservation}
    → bound_for max_tokens_of profile operation parameters parts ≡ done bound
    → IsLedger profile rs row
    → (own : List OperationReservation) × IsLedger profile
        (own ++ (others_of profile bound start readings shared row ++ rs))
        (reserve profile max_tokens_of operation parameters parts start readings row).1
      × Own bound
          (reserve profile max_tokens_of operation parameters parts start readings row).0
          own
unfolding reserve others_of
reserve-accounts profile max_tokens_of operation parameters parts start readings shared rs row
      {bound} known h =
    elim (Bool-cases (not (in_window profile.budget start))) [
      | inl early ↦ rw (known, early) ([], h, nothing window_expired)
      | inr open_window ↦
          let l = attempts-Left profile bound 8 readings shared rs row h in
          rw (known, open_window) (l.own, l.ledger, l.outcome)
    ]
