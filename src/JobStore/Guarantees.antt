-- ===== src/JobStore/Guarantees.antt =====
-- What a caller of job_store.py can rely on, whatever calls are made in between.
use newtaipei_appraisal_revi.Prelude.{
  ℕ, String, ◌≡◌, refl, sym, ap, ◌∙◌, subst, ◌⊎◌, inl, inr, true, Option, none, some, List, arith,
  nat_eq, pair_eq, string_eq, Option-cases,
}
use newtaipei_appraisal_revi.Prelude.Dict.{get}
use newtaipei_appraisal_revi.Faults.{Result, ok, ◌>>=◌}
use newtaipei_appraisal_revi.JobContracts.{honest_status}
use newtaipei_appraisal_revi.JobState.{JobPolicy}
use newtaipei_appraisal_revi.JobState.Policy.{valid_policy}
use newtaipei_appraisal_revi.ServiceGuards.{ReviewSubmission}
use newtaipei_appraisal_revi.ReviewJobs.{status_view}
use newtaipei_appraisal_revi.JobStore.Model.{Job, Run, JobRecord, Store, empty_store}
use newtaipei_appraisal_revi.JobStore.Read.{
  record_of, record_found, read_found, job_record, read_job,
}
use newtaipei_appraisal_revi.JobStore.Consistent.{IsConsistent}
use newtaipei_appraisal_revi.JobStore.Sound.{IsSound, JobIsSound}
use newtaipei_appraisal_revi.JobStore.Schedule.{Call, run_calls, run_calls-IsSound}

-- In a sound store a read gives nothing, or the record of a stored job and its current run.
pub record Reads (s : Store) (job_id : ℕ) (r : JobRecord) : Type 0 where
  pub job : Job
  pub run : Run
  pub job_stored : get s.jobs job_id ≡ some job
  pub run_stored : get s.runs (job_id, job.current_run_id) ≡ some run
  pub consistent : IsConsistent s.policy job run
  pub recorded : r ≡ record_of job run

job_record-stored :
    (s : Store) (j : ℕ) (job : Job) (found : JobIsSound s.policy s.runs j job)
    → job_record s job ≡ ok (record_of job found.current)
unfolding job_record
job_record-stored s j job found = ap (record_found job) (
    subst (λ k. get s.runs (k, job.current_run_id) ≡ some found.current) (sym found.keyed)
      found.stored)

pub read_job-stored :
    (s : Store) (j : ℕ) (job : Job) (found : JobIsSound s.policy s.runs j job)
    → get s.jobs j ≡ some job
    → read_job j s ≡ ok (some (record_of job found.current))
unfolding read_job
read_job-stored s j job found stored =
    ap (read_found s) stored
    ∙ ap (λ (r : Result JobRecord). r >>= λ k. ok (some k)) (job_record-stored s j job found)

read_job-cases :
    (job_id : ℕ) (s : Store)
    → IsSound s
    → (read_job job_id s ≡ ok none)
      ⊎ ((r : JobRecord) × (read_job job_id s ≡ ok (some r)) × Reads s job_id r)
unfolding read_job
read_job-cases job_id s sound = elim (Option-cases (get s.jobs job_id)) [
  | inl unknown ↦ inl (ap (read_found s) unknown)
  | inr (job, stored) ↦
      let found = sound.each_job job_id job stored in
      inr (
        record_of job found.current,
        read_job-stored s job_id job found stored,
        record {
          job = job;
          run = found.current;
          job_stored = stored;
          run_stored = found.stored;
          consistent = found.consistent;
          recorded = refl;
        },
      )
]

-- The record that a read gives is that of a stored job and its current run.
pub read_job-Reads :
    (job_id : ℕ) (s : Store) {r : JobRecord}
    → IsSound s
    → read_job job_id s ≡ ok (some r)
    → Reads s job_id r
read_job-Reads job_id s {r} sound h = elim (read_job-cases job_id s sound) [
  | inl nothing ↦ absurd (unread (cc (nothing, h)))
  | inr (r', read, reads) ↦ let same : r' ≡ r = cc (read, h) in subst (Reads s job_id) same reads
]
  where
    unread : ◌≡◌ {A = Result (Option JobRecord)} (ok none) (ok (some r)) → ⊥
    unread e = cc

-- Under a valid policy a read never raises, whatever calls were made before on an empty store.
pub read_job_total :
    (sha256 : String → String) (content_digest : ReviewSubmission → String) (p : JobPolicy)
    (cs : List Call) (job_id : ℕ)
    → valid_policy p ≡ true
    → (o : Option JobRecord) × (read_job job_id (run_calls sha256 content_digest cs (empty_store p))
        ≡ ok o)
read_job_total sha256 content_digest p cs job_id v =
    elim (read_job-cases job_id (run_calls sha256 content_digest cs (empty_store p))
      (run_calls-IsSound sha256 content_digest p cs v)) [
        | inl nothing ↦ (none, nothing)
        | inr (r, read, reads) ↦ (some r, read)
      ]

consistent-honest :
    (p : JobPolicy) (job : Job) (run : Run)
    → IsConsistent p job run
    → honest_status (status_view (record_of job run)) ≡ true
unfolding honest_status status_view record_of
consistent-honest p job run c =
    ground (arith, (string_eq.beq_iff run.revision.case_id job.case_id).1)

-- Under a valid policy the status view of any job, after any calls on an empty store, passes its
-- validator.
pub status_view-honest :
    (sha256 : String → String) (content_digest : ReviewSubmission → String) (p : JobPolicy)
    (cs : List Call) (job_id : ℕ) {r : JobRecord}
    → valid_policy p ≡ true
    → read_job job_id (run_calls sha256 content_digest cs (empty_store p)) ≡ ok (some r)
    → honest_status (status_view r) ≡ true
status_view-honest sha256 content_digest p cs job_id v h =
    let s = run_calls sha256 content_digest cs (empty_store p) in
    let reads = read_job-Reads job_id s (run_calls-IsSound sha256 content_digest p cs v) h in
    rw reads.recorded (consistent-honest s.policy reads.job reads.run reads.consistent)
