-- ===== src/RuntimeWorker/Told.antt =====
-- What the labels of runtime_worker.py's `process` say of a job, and how the parts of an attempt keep
-- it.
use newtaipei_appraisal_revi.Prelude.{ℕ, ◌≡◌, Bool, true, false, ◌||◌, some, if◌then◌else◌}
use newtaipei_appraisal_revi.Faults.{Result, ok, err}
use newtaipei_appraisal_revi.JobContracts.{
  succeeded, cancelled, waiting_for_human, failed, same_status,
}
use newtaipei_appraisal_revi.JobState.{JobEvent}
use newtaipei_appraisal_revi.JobStore.Model.{JobRecord, Store}
use newtaipei_appraisal_revi.JobStore.Read.{read_job}
use newtaipei_appraisal_revi.ReviewJobs.Service.{Service, and_then}
use newtaipei_appraisal_revi.RuntimeWorker.{
  Outcome, superseded, cancelled_attempt, published, waiting, failed_attempt, retry_scheduled,
}
use newtaipei_appraisal_revi.RuntimeWorker.Answers.{ending, IfReported}

-- The job, as it is read, has a status that the test allows.
pub record Stands (job_id : ℕ) (allowed : JobRecord → Bool) (w : Service) : Type 0 where
  pub record_read : JobRecord
  pub read : read_job job_id w.store ≡ ok (some record_read)
  pub allows : allowed record_read ≡ true

-- What each label says of the job. Neither a lost attempt nor a scheduled retry says anything here.
abbrev pub Told : ℕ → Outcome → Service → Type 0
Told job_id superseded w = Unit
Told job_id retry_scheduled w = Unit
Told job_id published w = Stands job_id (λ r. same_status r.status succeeded) w
Told job_id waiting w =
    Stands job_id (λ r. same_status r.status waiting_for_human || same_status r.status cancelled) w
Told job_id cancelled_attempt w = Stands job_id (λ r. same_status r.status cancelled) w
Told job_id failed_attempt w = Stands job_id (λ r. same_status r.status failed) w

abbrev pub IfTold : ℕ → Result Outcome × Service → Type 0
IfTold job_id (ok label, w) = Told job_id label w
IfTold job_id (err e, w) = Unit

-- A finishing call of the worker's, and then a label.
abbrev pub IfEnded : ℕ → JobEvent → Result JobRecord × Service → Type 0
IfEnded job_id event (ok r, w) = Stands job_id (λ r. ending event r.status) w
IfEnded job_id event (err e, w) = Unit

pub on_store-IfEnded :
    (job_id : ℕ) (event : JobEvent) (done : Result JobRecord × Store) (w : Service)
    → IfReported job_id event done
    → IfEnded job_id event (done.0, record w { store = done.1 })
on_store-IfEnded job_id event (err e, s) w h = tt
on_store-IfEnded job_id event (ok r, s) w h = record {
  record_read = r;
  read = h.read;
  allows = h.ended;
}

pub and_then-IfTold :
    (job_id : ℕ) (event : JobEvent) (label : Outcome) (done : Result JobRecord × Service)
    → ((w : Service) → Stands job_id (λ r. ending event r.status) w → Told job_id label w)
    → IfEnded job_id event done
    → IfTold job_id (and_then done (λ r v. (ok label, v)))
and_then-IfTold job_id event label (err e, w) tells h = tt
and_then-IfTold job_id event label (ok r, w) tells h = tells w h

pub if-IfTold :
    (job_id : ℕ) (test : Bool) (x y : Result Outcome × Service)
    → IfTold job_id x
    → IfTold job_id y
    → IfTold job_id (if test then x else y)
if-IfTold job_id true x y hx hy = hx
if-IfTold job_id false x y hx hy = hy

pub if-IfEnded :
    (job_id : ℕ) (event : JobEvent) (test : Bool) (x y : Result JobRecord × Service)
    → IfEnded job_id event x
    → IfEnded job_id event y
    → IfEnded job_id event (if test then x else y)
if-IfEnded job_id event true x y hx hy = hx
if-IfEnded job_id event false x y hx hy = hy

pub and_then-told :
    {A : Type 0} (job_id : ℕ) (done : Result A × Service)
    (rest : A → Service → Result Outcome × Service)
    → ((a : A) (v : Service) → IfTold job_id (rest a v))
    → IfTold job_id (and_then done rest)
and_then-told job_id (err e, w) rest h = tt
and_then-told job_id (ok a, w) rest h = h a w
