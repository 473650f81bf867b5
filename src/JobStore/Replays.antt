-- ===== src/JobStore/Replays.antt =====
-- Submission in job_store.py: an idempotency key names one submission for good.
use newtaipei_appraisal_revi.Prelude.{
  ℕ, String, ◌≡◌, ◌≢◌, refl, sym, ap, ◌∙◌, subst, inl, inr, Bool, true, false, some, List, ◌==◌,
  string_eq, pair_eq, nat_eq, beq_refl, beq-cases, Option-cases,
}
use newtaipei_appraisal_revi.Prelude.Dict.{get, get-put_self}
use newtaipei_appraisal_revi.Faults.{Result, ok, err, ◌>>=◌, service_fault, conflict, Result-cases}
use newtaipei_appraisal_revi.ServiceGuards.{
  Principal, ReviewSubmission, IdempotencyRecord, review, require, submission_digest,
  check_idempotency,
}
use newtaipei_appraisal_revi.JobStore.Model.{JobRecord, Store}
use newtaipei_appraisal_revi.JobStore.Read.{enqueue}
use newtaipei_appraisal_revi.JobStore.Submit.{
  idempotency_partition, admit_new, create_replay, create_new, create_job, replay_of,
}
use newtaipei_appraisal_revi.JobStore.Sound.{IsSound}
use newtaipei_appraisal_revi.JobStore.Steps.{Follows}
use newtaipei_appraisal_revi.JobStore.Steps.Submission.{HasRoom, create_job-Follows}
use newtaipei_appraisal_revi.JobStore.Schedule.{Call, run_calls, run_calls-Follows}

module _ (sha256 : String → String) (content_digest : ReviewSubmission → String) where
  -- The record under the key is that of the submission.
  record Keyed (s : Store) (principal : Principal) (submission : ReviewSubmission) : Type 0 where
    known : IdempotencyRecord
    stored :
        get s.idempotency
          (idempotency_partition sha256 principal.actor.actor_id submission.idempotency_key)
        ≡ some known
    mine : known.principal_id ≡ principal.actor.actor_id
    key : known.key ≡ submission.idempotency_key
    payload : known.payload_digest ≡ submission_digest content_digest submission

  abbrev IfNew : Principal → ReviewSubmission → Result (JobRecord × Bool) × Store → Type 0
  IfNew principal submission (ok (r, true), s) = Keyed s principal submission
  IfNew principal submission (ok (r, false), s) = Unit
  IfNew principal submission (err e, s) = Unit

  create_new-Keyed :
      (principal : Principal) (submission : ReviewSubmission) (job_id run_id token now : ℕ)
      (s : Store)
      → Keyed
          (create_new sha256 content_digest
            (idempotency_partition sha256 principal.actor.actor_id submission.idempotency_key)
            principal
            submission
            job_id
            run_id
            token
            now
            s).1
          principal
          submission
  unfolding create_new enqueue
  create_new-Keyed principal submission job_id run_id token now s = record {
    known = record {
      principal_id = principal.actor.actor_id;
      key = submission.idempotency_key;
      payload_digest = submission_digest content_digest submission;
      run_id = run_id;
    };
    stored =
        get-put_self s.idempotency
          (idempotency_partition sha256 principal.actor.actor_id submission.idempotency_key) _;
    mine = refl;
    key = refl;
    payload = refl;
  }

  Keyed-IfNew :
      (principal : Principal) (submission : ReviewSubmission) (r : Result (JobRecord × Bool))
      (s : Store)
      → Keyed s principal submission
      → IfNew principal submission (r, s)
  Keyed-IfNew principal submission (ok (r, true)) s h = h
  Keyed-IfNew principal submission (ok (r, false)) s h = tt
  Keyed-IfNew principal submission (err e) s h = tt

  old-IfNew :
      (principal : Principal) (submission : ReviewSubmission) (replayed : Result JobRecord)
      (s : Store)
      → IfNew principal submission ((replayed >>= λ r. ok (r, false)), s)
  old-IfNew principal submission (ok r) s = tt
  old-IfNew principal submission (err e) s = tt

  checked-IfNew :
      (principal : Principal) (submission : ReviewSubmission) (checked : Result ℕ)
      (replay : ℕ → Result JobRecord) (s : Store)
      → IfNew principal submission ((checked >>= λ k. replay k >>= λ r. ok (r, false)), s)
  checked-IfNew principal submission (ok k) replay s = old-IfNew principal submission (replay k) s
  checked-IfNew principal submission (err e) replay s = tt

  replay-IfNew :
      (principal : Principal) (submission : ReviewSubmission) (known : IdempotencyRecord)
      (s : Store)
      → IfNew principal submission
          (create_replay sha256 content_digest known principal submission s, s)
  unfolding create_replay
  replay-IfNew principal submission known s =
      checked-IfNew principal submission
        (check_idempotency content_digest known principal submission) (λ k. replay_of k s) s

  create_job-IfNew :
      (principal : Principal) (submission : ReviewSubmission) (job_id run_id token now : ℕ)
      (s : Store)
      → IfNew principal submission
          (create_job sha256 content_digest principal submission job_id run_id token now s)
  unfolding create_job
  create_job-IfNew principal submission job_id run_id token now s =
      elim (Option-cases (
        get s.idempotency
          (idempotency_partition sha256 principal.actor.actor_id submission.idempotency_key))) [
            | inr (known, hk) ↦ rw hk (replay-IfNew principal submission known s)
            | inl fresh ↦
                rw fresh (elim (Result-cases (admit_new principal submission job_id run_id s)) [
                  | inl (e, h) ↦ rw h tt
                  | inr (u, h) ↦ rw h (
                      let partition =
                        idempotency_partition sha256 principal.actor.actor_id
                          submission.idempotency_key in
                      let done =
                        create_new sha256 content_digest partition principal submission job_id
                          run_id token now s in
                      Keyed-IfNew principal submission done.0 done.1
                        (create_new-Keyed principal submission job_id run_id token now s))
                ])
          ]

  create_job-known :
      (principal : Principal) (submission : ReviewSubmission) (job_id run_id token now : ℕ)
      (s : Store) {known : IdempotencyRecord}
      → get s.idempotency
          (idempotency_partition sha256 principal.actor.actor_id submission.idempotency_key)
        ≡ some known
      → create_job sha256 content_digest principal submission job_id run_id token now s
        ≡ (create_replay sha256 content_digest known principal submission s, s)
  unfolding create_job
  create_job-known principal submission job_id run_id token now s h = rw h

  refused_payload :
      (known : IdempotencyRecord) (principal : Principal) (submission : ReviewSubmission)
      (s : Store)
      → require principal submission.revision.case_id review ≡ ok tt
      → known.principal_id ≡ principal.actor.actor_id
      → known.key ≡ submission.idempotency_key
      → known.payload_digest ≢ submission_digest content_digest submission
      → create_replay sha256 content_digest known principal submission s
        ≡ err (service_fault conflict)
  unfolding create_replay check_idempotency
  refused_payload known principal submission s allowed mine key other =
      let a : (known.principal_id == principal.actor.actor_id) ≡ true =
        rw mine (beq_refl principal.actor.actor_id) in
      let b : (known.key == submission.idempotency_key) ≡ true =
        rw key (beq_refl submission.idempotency_key) in
      let c : (known.payload_digest == submission_digest content_digest submission) ≡ false =
        elim (beq-cases known.payload_digest (submission_digest content_digest submission)) [
          | inl e ↦ absurd (other e)
          | inr ne ↦ ne
        ] in
      rw (allowed, a, b, c)

  -- A later submission under a known key is answered from the record that the first one stored.
  module _ (cs : List Call) (principal again : Principal) (submission other : ReviewSubmission)
      (job_id run_id token now job_id' run_id' token' now' : ℕ) (s : Store) {r : JobRecord}
      {s₁ : Store} (room : HasRoom s.policy) (sound : IsSound s)
      (made : create_job sha256 content_digest principal submission job_id run_id token now s
        ≡ (ok (r, true), s₁))
      (same_actor : again.actor.actor_id ≡ principal.actor.actor_id)
      (same_key : other.idempotency_key ≡ submission.idempotency_key) where
    keyed : Keyed s₁ principal submission
    keyed =
        subst (IfNew principal submission) made
          (create_job-IfNew principal submission job_id run_id token now s)

    abbrev later : Store
    later = run_calls sha256 content_digest cs s₁

    replayed :
        create_job sha256 content_digest again other job_id' run_id' token' now' later
        ≡ (create_replay sha256 content_digest keyed.known again other later, later)
    replayed =
        let here : Follows s s₁ =
          subst (λ (p : Result (JobRecord × Bool) × Store). Follows s p.1) made
            (create_job-Follows sha256 content_digest principal submission job_id run_id token now s
              room sound) in
        let on =
          run_calls-Follows sha256 content_digest cs s₁ (subst HasRoom (sym here.past.policy) room)
            here.sound in
        let kept = on.past.keys _ keyed.known keyed.stored in
        let found : get later.idempotency
              (idempotency_partition sha256 again.actor.actor_id other.idempotency_key)
            ≡ some keyed.known =
          rw (same_actor, same_key) kept in
        create_job-known again other job_id' run_id' token' now' later found

    -- From a sound store whose policy leaves room for an attempt and a takeover: once a submission has
    -- created a job, a later submission of the same principal under the same key changes nothing in
    -- the store, whatever calls lie between.
    pub create_job-once :
        (create_job sha256 content_digest again other job_id' run_id' token' now' later).1 ≡ later
    create_job-once = ap (λ (p : Result (JobRecord × Bool) × Store). p.1) replayed

    -- From a sound store whose policy leaves room for an attempt and a takeover: once a submission has
    -- created a job, a later submission of the same principal under the same key is a conflict,
    -- whatever calls lie between, where the principal may review its case and its payload digest is
    -- another one.
    pub create_job-conflict :
        require again other.revision.case_id review ≡ ok tt
        → submission_digest content_digest submission ≢ submission_digest content_digest other
        → (create_job sha256 content_digest again other job_id' run_id' token' now' later).0
          ≡ err (service_fault conflict)
    create_job-conflict allowed differs =
        ap (λ (p : Result (JobRecord × Bool) × Store). p.0) replayed
        ∙ refused_payload keyed.known again other later allowed (keyed.mine ∙ sym same_actor)
            (keyed.key ∙ sym same_key) (λ e. differs (sym keyed.payload ∙ e))
