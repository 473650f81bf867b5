-- ===== src/JobStore/Steps/Submission.antt =====
-- `create_job` of job_store.py keeps the store sound and its past.
use newtaipei_appraisal_revi.Prelude.{
  ℕ, ◌≡◌, refl, ◌∙◌, inl, inr, Bool, Option, none, some, nat_eq, pair_eq, beq-cases, arith,
}
use newtaipei_appraisal_revi.Prelude.Dict.{get, put, get-put_self, get-put_ne}
use newtaipei_appraisal_revi.Faults.{ok}
use newtaipei_appraisal_revi.JobState.{JobPolicy}
use newtaipei_appraisal_revi.JobStore.Model.{JobRecord, Job, Run, Store, Method}
use newtaipei_appraisal_revi.JobStore.Consistent.{IsConsistent}
use newtaipei_appraisal_revi.JobStore.Sound.{IsSound}
use newtaipei_appraisal_revi.JobStore.Steps.{
  Follows, Follows-refl, Follows-trans, commit-Follows, enqueue-Follows,
}
use newtaipei_appraisal_revi.Prelude.{String, string_eq, ◌≤◌}
use newtaipei_appraisal_revi.ServiceGuards.{
  Principal, ReviewSubmission, IdempotencyRecord, submission_digest, require,
}
use newtaipei_appraisal_revi.JobStore.Submit.{
  new_job, new_run, idempotency_partition, admit_new, create_new, by_key, create_job,
}
use newtaipei_appraisal_revi.JobStore.Sound.{put-Sound}
use newtaipei_appraisal_revi.JobStore.History.{put-Evolved}

-- The ceilings leave room for a first attempt.
pub record HasRoom (p : JobPolicy) : Type 0 where
  pub attempts : 1 ≤ p.max_attempts
  pub takeovers : 1 ≤ p.max_lease_takeovers

new_job-IsConsistent :
    (p : JobPolicy) (principal : Principal) (submission : ReviewSubmission) (digest : String)
    (job_id run_id now : ℕ)
    → HasRoom p
    → IsConsistent p
        (new_job principal submission job_id run_id now)
        (new_run submission digest run_id)
unfolding new_job new_run
new_job-IsConsistent p principal submission digest job_id run_id now room = ground arith

-- A first write under an unknown key.
key-kept :
    (s : Store) (k : String) (fresh : IdempotencyRecord)
    → get s.idempotency k ≡ none
    → (j : String) (known : IdempotencyRecord) → get s.idempotency j ≡ some known
    → get (put s.idempotency k fresh) j ≡ some known
key-kept s k fresh unknown j known h = elim (beq-cases k j) [
  | inl e ↦ let taken : get s.idempotency k ≡ some known = rw e h in absurd (cc (unknown, taken))
  | inr n ↦ get-put_ne s.idempotency k j fresh n ∙ h
]

admit_new-unknown :
    (principal : Principal) (submission : ReviewSubmission) (job_id run_id : ℕ) (s : Store)
    {u : Unit {0}}
    → admit_new principal submission job_id run_id s ≡ ok u
    → get s.jobs job_id ≡ none
unfolding admit_new require
admit_new-unknown principal submission job_id run_id s h = ground arith

-- A job under a new id, with its first run.
fresh_job-Follows :
    (s : Store) (sound : IsSound s) (j r : ℕ) (job : Job) (run : Run) (k : String)
    (i : IdempotencyRecord)
    → get s.jobs j ≡ none
    → get s.idempotency k ≡ none
    → job.job_id ≡ j
    → job.current_run_id ≡ r
    → IsConsistent s.policy job run
    → Follows s (record s {
      jobs = put s.jobs j job;
      runs = put s.runs (j, r) run;
      idempotency = put s.idempotency k i;
    })
fresh_job-Follows s sound j r job run k i new unknown id current c = record {
  sound = put-Sound sound j r job run id current c (λ old h. absurd (cc (new, h)));
  past = record {
    policy = refl;
    pairs = put-Evolved s.jobs s.runs j r job run (λ old h. absurd (cc (new, h)));
    results = λ q ref h. h;
    keys = key-kept s k i unknown;
  };
}

by_key-Follows :
    (s : Store) (sound : IsSound s) (k : Option IdempotencyRecord)
    (replay : IdempotencyRecord → Method (JobRecord × Bool)) (fresh : Method (JobRecord × Bool))
    → ((stored : IdempotencyRecord) → Follows s (replay stored s).1)
    → (k ≡ none → Follows s (fresh s).1)
    → Follows s (by_key k replay fresh s).1
by_key-Follows s sound none replay fresh h f = f refl
by_key-Follows s sound (some stored) replay fresh h f = h stored

module _ (sha256 : String → String) (content_digest : ReviewSubmission → String) where
  create_new-Follows :
      (partition : String) (principal : Principal) (submission : ReviewSubmission)
      (job_id run_id token now : ℕ) (s : Store)
      → HasRoom s.policy
      → IsSound s
      → get s.jobs job_id ≡ none
      → get s.idempotency partition ≡ none
      → Follows s
          (create_new sha256 content_digest partition principal submission job_id run_id token now
            s).1
  unfolding create_new
  create_new-Follows partition principal submission job_id run_id token now s room sound new
        unknown =
      let digest = submission_digest content_digest submission in
      let job = new_job principal submission job_id run_id now in
      let written =
        fresh_job-Follows s sound job_id run_id job (new_run submission digest run_id) partition
          (record {
            principal_id = principal.actor.actor_id;
            key = submission.idempotency_key;
            payload_digest = digest;
            run_id = run_id;
          })
          new unknown refl refl
          (new_job-IsConsistent s.policy principal submission digest job_id run_id now room) in
      Follows-trans written
        (enqueue-Follows _ written.sound job_id run_id now token (get-put_self s.jobs job_id job))

  pub create_job-Follows :
      (principal : Principal) (submission : ReviewSubmission) (job_id run_id token now : ℕ)
      (s : Store)
      → HasRoom s.policy
      → IsSound s
      → Follows s
          (create_job sha256 content_digest principal submission job_id run_id token now s).1
  unfolding create_job
  create_job-Follows principal submission job_id run_id token now s room sound =
      let partition =
        idempotency_partition sha256 principal.actor.actor_id submission.idempotency_key in
      by_key-Follows s sound (get s.idempotency partition) _ _ (λ _. Follows-refl sound)
        (λ unknown. commit-Follows s sound _ _ (λ _ admitted.
          create_new-Follows partition principal submission job_id run_id token now s room sound
            (admit_new-unknown principal submission job_id run_id s admitted) unknown))
