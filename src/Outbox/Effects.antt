-- ===== src/Outbox/Effects.antt =====
-- What `mark_dispatched` of job_store.py does to the outbox, for the dispatcher of outbox.py: it
-- marks its round as sent, or leaves the outbox alone where the round was no longer open.
use newtaipei_appraisal_revi.Prelude.{
  ℕ, ◌≡◌, refl, sym, ◌∙◌, subst, ◌⊎◌, inl, inr, true, not, Option, some, nat_eq, pair_eq, beq-cases,
  arith,
}
use newtaipei_appraisal_revi.Prelude.Dict.{Dict, get, put, get-put_self, get-put_ne}
use newtaipei_appraisal_revi.Faults.{Result, ok, err, condition_failed}
use newtaipei_appraisal_revi.JobStore.Model.{
  Job, Run, Outbox, JobRecord, DispatchRecord, pending, sent, Store,
}
use newtaipei_appraisal_revi.JobStore.Read.{job_record, record_of}
use newtaipei_appraisal_revi.JobStore.Dispatch.{round_open}

abbrev pub Rounds : Type 0
Rounds = Dict (ℕ × ℕ) Outbox

-- An entry is as it was, or it was there and is marked as sent.
pub record Entry (before after : Option Outbox) : Type 0 where
  pub same_or_sent :
      (after ≡ before)
      ⊎ ((e : Outbox) × (before ≡ some e) × (after ≡ some (record e { dispatch_state = sent })))

pub record Progress (o o' : Rounds) : Type 0 where
  pub each : (k : ℕ × ℕ) → Entry (get o k) (get o' k)

Entry-trans : {a b c : Option Outbox} → Entry a b → Entry b c → Entry a c
Entry-trans x y = ground arith

pub Progress-trans : {o o' o'' : Rounds} → Progress o o' → Progress o' o'' → Progress o o''
Progress-trans a b = record { each = λ k. Entry-trans (a.each k) (b.each k) }

pub Progress-refl : (o : Rounds) → Progress o o
Progress-refl o = record { each = λ k. record { same_or_sent = inl refl } }

-- The round is not open any more.
pub record Settled (o : Rounds) (round : DispatchRecord) : Type 0 where
  pub closed :
      (e : Outbox)
      → get o (round.job_id, round.outbox_seq) ≡ some e
      → e.dispatch_token ≡ round.dispatch_token
      → e.dispatch_state ≡ pending
      → ⊥

pub Settled-kept :
    {o o' : Rounds} {round : DispatchRecord} → Progress o o' → Settled o round → Settled o' round
Settled-kept {o} {o'} {round} p s = record {
  closed = λ e known token unsent. elim (p.each (round.job_id, round.outbox_seq)).same_or_sent [
    | inl same ↦ s.closed e (sym same ∙ known) token unsent
    | inr (old, was, is) ↦ absurd (gone old e (sym is ∙ known) unsent)
  ];
}
  where
    gone :
        (old e : Outbox)
        → some (record old { dispatch_state = sent }) ≡ some e
        → e.dispatch_state ≡ pending
        → ⊥
    gone old e same unsent = ground arith

put-Entry :
    (o : Rounds) (k i : ℕ × ℕ) {e : Outbox}
    → get o k ≡ some e
    → Entry (get o i) (get (put o k (record e { dispatch_state = sent })) i)
put-Entry o k i {e} known =
    let e' = record e { dispatch_state = sent } in
    elim (beq-cases {A = ℕ × ℕ} k i) [
      | inl same ↦
          subst (λ j. Entry (get o j) (get (put o k e') j)) same
            (record { same_or_sent = inr (e, known, get-put_self o k e') })
      | inr other ↦ record { same_or_sent = inl (get-put_ne o k i e' other) }
    ]

put-Settled :
    (o : Rounds) (round : DispatchRecord) (e : Outbox)
    → Settled (put o (round.job_id, round.outbox_seq) (record e { dispatch_state = sent })) round
put-Settled o round e = record {
  closed = λ e' known token unsent.
      let k : ℕ × ℕ = (round.job_id, round.outbox_seq) in
      let sent_entry = record e { dispatch_state = sent } in
      let same : sent_entry ≡ e' = cc (get-put_self o k sent_entry, known) in
      absurd (not_pending same unsent);
}
  where
    not_pending :
        {e' : Outbox} → record e { dispatch_state = sent } ≡ e' → e'.dispatch_state ≡ pending → ⊥
    not_pending same unsent = ground arith

-- What the dispatcher relies on after a confirmation of a round.
pub record Marked (round : DispatchRecord) (s : Store) (done : Result JobRecord × Store)
    : Type 0 where
  pub progress : Progress s.outbox done.1.outbox
  pub settled : Settled done.1.outbox round
  pub outcome : ((r : JobRecord) × (done.0 ≡ ok r)) ⊎ (done.0 ≡ err condition_failed)

pub job_record-ok :
    (s : Store) (job : Job) {run : Run}
    → get s.runs (job.job_id, job.current_run_id) ≡ some run
    → (r : JobRecord) × (job_record s job ≡ ok r)
unfolding job_record
job_record-ok s job {run} h = rw h (record_of job run, refl)

pub unmarked :
    (round : DispatchRecord) (s : Store)
    → Settled s.outbox round
    → Marked round s (err condition_failed, s)
unmarked round s settled = record {
  progress = Progress-refl s.outbox;
  settled = settled;
  outcome = inr refl;
}

module _ (round : DispatchRecord) (s : Store) {entry : Outbox}
    (he : get s.outbox (round.job_id, round.outbox_seq) ≡ some entry) where
  -- The round is marked, and the method returns.
  pub marked :
      {done : Result JobRecord × Store} {r : JobRecord}
      → done.1.outbox
        ≡ put s.outbox (round.job_id, round.outbox_seq) (record entry { dispatch_state = sent })
      → done.0 ≡ ok r
      → Marked round s done
  marked {done} {r} same returned = record {
    progress =
        rw same (record { each = λ i. put-Entry s.outbox (round.job_id, round.outbox_seq) i he });
    settled = rw same (put-Settled s.outbox round entry);
    outcome = inl (r, returned);
  }

  pub refused-Settled : not (round_open entry round) ≡ true → Settled s.outbox round
  refused-Settled shut = record {
    closed = λ e known token unsent.
        let same : entry ≡ e = cc (he, known) in absurd (was_open same token unsent);
  }
    where
      was_open :
          {e : Outbox}
          → entry ≡ e
          → e.dispatch_token ≡ round.dispatch_token
          → e.dispatch_state ≡ pending
          → ⊥
      was_open same token unsent = ground arith
