-- ===== src/ReviewJobs/Delivery.antt =====
-- From the worker to the caller through `ReviewJobService` in review_jobs.py: a published body is
-- the result that is served.
use newtaipei_appraisal_revi.Prelude.{
  ℕ, ◌+◌, ◌≤◌, String, ◌≡◌, refl, subst, inl, inr, true, false, not, ◌||◌, none, some, [], arith,
  pair_eq, nat_eq, string_eq, eqb, ltb, ◌==◌, beq_refl, Bool-cases,
}
use newtaipei_appraisal_revi.Prelude.Dict.{get, put, get-put_self}
use newtaipei_appraisal_revi.Faults.{Result, ok, err}
use newtaipei_appraisal_revi.JobState.{publish_result}
use newtaipei_appraisal_revi.ServiceGuards.{Principal, review, require, has_case, has_permission}
use newtaipei_appraisal_revi.JobStore.Model.{JobRecord, ClaimedAttempt, Store}
use newtaipei_appraisal_revi.JobStore.Read.{read_job, read_result_reference}
use newtaipei_appraisal_revi.JobStore.Finish.{finish}
use newtaipei_appraisal_revi.JobStore.Sound.{IsSound}
use newtaipei_appraisal_revi.JobStore.Publication.{finish-published}
use newtaipei_appraisal_revi.ReviewJobs.{ServiceResult, result_reference}
use newtaipei_appraisal_revi.ReviewJobs.Service.{Service, and_then, on_store, conflicting, put_body}
use newtaipei_appraisal_revi.ReviewJobs.Caller.{visible, authorized, result}
use newtaipei_appraisal_revi.ReviewJobs.Worker.{publish}

module _ (digest_of : ServiceResult → String) (attempt : ClaimedAttempt)
    (body : ServiceResult) where
  -- What a publication leaves for a reader.
  record Delivered (r : JobRecord) (w : Service) : Type 0 where
    read : read_job attempt.job_id w.store ≡ ok (some r)
    current : r.current_run.run_id ≡ attempt.run_id
    version : r.result_version ≡ body.result_version
    committed :
        read_result_reference attempt.run_id body.result_version w.store
        ≡ some (result_reference body attempt (digest_of body))
    stored : get w.bodies (attempt.run_id, body.result_version) ≡ some body
    positive : 1 ≤ body.result_version

  abbrev IfDelivered : Result JobRecord × Service → Type 0
  IfDelivered (ok r, w) = Delivered r w
  IfDelivered (err e, w) = Unit

  on_store-IfDelivered :
      (done : Result JobRecord × Store) (w : Service)
      → ((r : JobRecord) (s : Store) → done ≡ (ok r, s) → Delivered r (record w { store = s }))
      → IfDelivered (done.0, record w { store = done.1 })
  on_store-IfDelivered (ok r, s) w h = h r s refl
  on_store-IfDelivered (err e, s) w h = tt

  abbrev with_body : Service → Service
  with_body w = record w { bodies = put w.bodies (attempt.run_id, body.result_version) body }

  finish-Delivered :
      (now : ℕ) (w : Service)
      → IsSound w.store
      → 1 ≤ body.result_version
      → IfDelivered (
          on_store
            (finish attempt publish_result now none []
              (some (result_reference body attempt (digest_of body))))
            (with_body w))
  finish-Delivered now w sound positive =
      on_store-IfDelivered
        (finish attempt publish_result now none []
          (some (result_reference body attempt (digest_of body))) w.store)
        (with_body w)
        (λ r s done.
          let (read, finished, current, version, committed) =
            finish-published attempt now (result_reference body attempt (digest_of body)) w.store
              {r = r} {s' = s} sound done in
          delivered r w s read current version committed positive)
    where
      delivered :
          (r : JobRecord) (w : Service) (s : Store)
          → read_job attempt.job_id s ≡ ok (some r)
          → r.current_run.run_id ≡ attempt.run_id
          → r.result_version ≡ (result_reference body attempt (digest_of body)).result_version
          → read_result_reference attempt.run_id
              (result_reference body attempt (digest_of body)).result_version
              s
            ≡ some (result_reference body attempt (digest_of body))
          → 1 ≤ body.result_version
          → Delivered r (record (with_body w) { store = s })
      delivered r w s read current version committed positive =
          unfold result_reference in
          record {
            read = read;
            current = current;
            version = version;
            committed = committed;
            stored = get-put_self w.bodies (attempt.run_id, body.result_version) body;
            positive = positive;
          }

  put-IfDelivered :
      (now : ℕ) (w : Service)
      → IsSound w.store
      → 1 ≤ body.result_version
      → IfDelivered (
          and_then (put_body digest_of attempt.run_id body.result_version body w) (λ digest w'.
            on_store
              (finish attempt publish_result now none []
                (some (result_reference body attempt digest)))
              w'))
  unfolding put_body
  put-IfDelivered now w sound positive =
      elim (Bool-cases (
        not (eqb body.run_id attempt.run_id)
        || not (eqb body.result_version body.result_version))) [
          | inl bad ↦ rw bad tt
          | inr fine ↦
              rw fine
                (elim (Bool-cases (
                  conflicting digest_of (get w.bodies (attempt.run_id, body.result_version))
                    (digest_of body))) [
                      | inl other ↦ rw other tt
                      | inr same ↦ rw same (finish-Delivered now w sound positive)
                    ])
        ]

  publish-IfDelivered :
      (now : ℕ) (w : Service) → IsSound w.store → IfDelivered (publish digest_of attempt body now w)
  unfolding publish
  publish-IfDelivered now w sound =
      elim (Bool-cases (
        not (eqb body.run_id attempt.run_id)
        || not (eqb body.result_version (attempt.expected_result_version + 1)))) [
          | inl bad ↦ rw bad tt
          | inr fine ↦
              let positive : 1 ≤ body.result_version = ground arith in
              rw fine (put-IfDelivered now w sound positive)
        ]

  -- The result that a caller is shown of a job with a delivered body.
  result-Delivered :
      (principal : Principal) (w : Service) {r : JobRecord}
      → Delivered r w
      → visible principal (some r) ≡ ok r
      → require principal r.case_id review ≡ ok tt
      → result digest_of principal attempt.job_id w ≡ ok body
  unfolding result authorized result_reference
  result-Delivered principal w {r} d seen permitted =
      let one : ltb body.result_version 1 ≡ false = let p = d.positive in ground arith in
      let digest = beq_refl (digest_of body) in
      rw (d.read, seen, permitted, d.current, d.version, one, d.committed, d.stored, digest)

  -- A published body is the result that is served: where publishing returns, from a sound job store,
  -- every principal that owns the job, sees its case and has the review permission reads that body as
  -- the job's result.
  pub publish-result :
      (now : ℕ) (principal : Principal) (w : Service) {r : JobRecord} {w' : Service}
      → IsSound w.store
      → publish digest_of attempt body now w ≡ (ok r, w')
      → r.principal_id ≡ principal.actor.actor_id
      → has_case r.case_id principal.case_ids ≡ true
      → has_permission review principal.permissions ≡ true
      → result digest_of principal attempt.job_id w' ≡ ok body
  unfolding require
  publish-result now principal w {r} {w'} sound h owner in_case permitted =
      let d : Delivered r w' = subst IfDelivered h (publish-IfDelivered now w sound) in
      let same : (r.principal_id == principal.actor.actor_id) ≡ true =
        rw owner (beq_refl principal.actor.actor_id) in
      result-Delivered principal w' d (rw (same, in_case)) (rw (in_case, permitted))
