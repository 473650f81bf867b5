-- ===== src/HumanTasks/Consumed.antt =====
-- What a response that human_task_store.py committed leaves, and what its operations keep of it: its
-- task is closed, and its receipt is stored.
use newtaipei_appraisal_revi.Prelude.{
  ℕ, ◌+◌, String, ◌≡◌, refl, sym, ap, subst, ◌∙◌, Option, none, some, List, [], ◌∷◌, ◌==◌, nat_eq,
  string_eq, text_pair_eq, beq-cases, inl, inr, Bool-cases,
}
use newtaipei_appraisal_revi.Prelude.Dict.{Dict, get, put, get-put_self, get-put_ne}
use newtaipei_appraisal_revi.JobContracts.{RevisionReference}
use newtaipei_appraisal_revi.HumanTasks.{
  superseded, HumanTask, Task, JobMeta, TaskStore, AcceptedResponse, RevisionSnapshot,
  ResponseReceipt, StoredReceipt, restate, supersede, is_stale,
}
use newtaipei_appraisal_revi.HumanTasks.Commit.{answered_task, applied, commit_response}
use newtaipei_appraisal_revi.HumanTasks.Seed.{IsKeyed, put-IsKeyed, seed, seed-keeps}
use newtaipei_appraisal_revi.HumanTasks.Taken.{
  Taken, put_meta-Taken, supersede-Taken, put-Taken, get-registered, is_some-put,
}
use newtaipei_appraisal_revi.HumanTasks.Outcomes.{
  IfOk, key_of, Found, commit_response-IfOk, commit_response-keeps,
}

-- The task `k` takes no response, and the receipt of one stands under `key`.
pub record Consumed (k : ℕ) (key : String × String) (stored : StoredReceipt) (v : TaskStore)
    : Type 0 where
  pub taken : Taken k v.tasks v.job_meta
  pub used : get v.receipts key ≡ some stored

-- Superseding changes no identity.
supersede-IsKeyed :
    (job_id : ℕ) (head : RevisionReference) (ts : Dict ℕ Task)
    → IsKeyed ts
    → IsKeyed (supersede job_id head ts)
unfolding get supersede restate
supersede-IsKeyed job_id head ts keyed k t h =
    let found = origin ts h in found.2 ∙ keyed k found.0 found.1
  where
    origin :
        (ts : Dict ℕ Task) {t : Task}
        → get (supersede job_id head ts) k ≡ some t
        → (u : Task) × (get ts k ≡ some u) × (t.task.task_id ≡ u.task.task_id)
    origin [] h = absurd (cc h)
    origin ((j, u) ∷ ts) {t} h = elim (Bool-cases (j == k)) [
      | inl here ↦ elim (Bool-cases (is_stale job_id head u)) [
        | inl stale ↦ (
          u,
          rw here refl,
          let same : record u { task = restate u.task superseded (u.task.version + 1) } ≡ t =
                cc (rw (stale, here) at h) in
              sym (ap (λ (x : Task). x.task.task_id) same),
        )
        | inr kept ↦ (
          u,
          rw here refl,
          let same : u ≡ t = cc (rw (kept, here) at h) in
              sym (ap (λ (x : Task). x.task.task_id) same),
        )
      ]
      | inr there ↦ elim (Bool-cases (is_stale job_id head u)) [
        | inl stale ↦ let r = origin ts {t = t} (rw (stale, there) at h) in (r.0, rw there r.1, r.2)
        | inr kept ↦ let r = origin ts {t = t} (rw (kept, there) at h) in (r.0, rw there r.1, r.2)
      ]
    ]

-- Under an unused key nothing else is overwritten.
kept_receipt :
    {accepted : AcceptedResponse} {digest : String} (w : TaskStore) (next : Option RevisionSnapshot)
    {entry : Task} {meta : JobMeta}
    → Found accepted digest next w entry meta
    → (receipt : ResponseReceipt) (key : String × String) (stored : StoredReceipt)
    → get w.receipts key ≡ some stored
    → get
        (put w.receipts
          (accepted.actor.actor_id, accepted.command.idempotency_key)
          (record { payload_digest = digest; receipt = receipt }))
        key
      ≡ some stored
kept_receipt {accepted} {digest} w next found receipt key stored used =
    elim (beq-cases (accepted.actor.actor_id, accepted.command.idempotency_key) key) [
      | inl e ↦ absurd (let gone = found.unused in cc (e, gone, used))
      | inr n ↦ get-put_ne w.receipts _ key _ n ∙ used
    ]

module _ (accepted : AcceptedResponse) (next : Option RevisionSnapshot) (digest : String)
    (now run_id token : ℕ) (w : TaskStore) where
  pub commit_response-IsKeyed :
      IsKeyed w.tasks → IsKeyed (commit_response accepted next digest now run_id token w).1.tasks
  unfolding restate applied
  commit_response-IsKeyed keyed =
      commit_response-keeps (λ v. IsKeyed v.tasks) accepted next digest now run_id token w
        (λ s. keyed)
        (commit_response-IfOk accepted digest (λ receipt v. IsKeyed v.tasks) w next now run_id token
          (λ old used same. keyed)
          (λ entry meta found s receipt. put-IsKeyed w.tasks (answered_task entry) keyed)
          (λ entry meta found rows rows_at revision step_at s receipt.
            supersede-IsKeyed entry.job_id meta.head
              (put w.tasks entry.task.task_id (answered_task entry))
              (put-IsKeyed w.tasks (answered_task entry) keyed)))

  module _ (k : ℕ) (key : String × String) (stored : StoredReceipt) where
    pub commit_response-Consumed :
        Consumed k key stored w
        → Consumed k key stored (commit_response accepted next digest now run_id token w).1
    unfolding restate applied
    commit_response-Consumed c =
        commit_response-keeps (Consumed k key stored) accepted next digest now run_id token w
          (λ s. record { taken = c.taken; used = c.used })
          (commit_response-IfOk accepted digest (λ receipt v. Consumed k key stored v) w next now
            run_id token (λ old used same. c)
            (λ entry meta found s receipt. record {
              taken = left entry meta found;
              used = kept_receipt w next found receipt key stored c.used;
            })
            (λ entry meta found rows rows_at revision step_at s receipt. record {
              taken =
                  put_meta-Taken k entry.job_id _ _ _
                    (supersede-Taken k entry.job_id meta.head _ _ (left entry meta found));
              used = kept_receipt w next found receipt key stored c.used;
            }))
      where
        left :
            (entry : Task) (meta : JobMeta)
            → Found accepted digest next w entry meta
            → Taken k (put w.tasks entry.task.task_id (answered_task entry)) w.job_meta
        left entry meta found =
            let known = found.known in
            put-Taken k entry.task.task_id (answered_task entry) w.tasks w.job_meta refl
              (rw known refl) c.taken

  -- A receipt that is stored stays.
  pub commit_response-receipts :
      (key : String × String) (stored : StoredReceipt)
      → get w.receipts key ≡ some stored
      → get (commit_response accepted next digest now run_id token w).1.receipts key ≡ some stored
  unfolding applied
  commit_response-receipts key stored used =
      commit_response-keeps (λ v. get v.receipts key ≡ some stored) accepted next digest now run_id
        token w (λ s. used)
        (commit_response-IfOk accepted digest (λ receipt v. get v.receipts key ≡ some stored) w next
          now run_id token (λ old found same. used)
          (λ entry meta found s receipt. kept_receipt w next found receipt key stored used)
          (λ entry meta found rows rows_at revision step_at s receipt.
            kept_receipt w next found receipt key stored used))

  -- The receipt that a response returns is stored under its key, with its payload.
  pub commit_response-stores :
      IfOk
        (λ receipt v.
          get v.receipts (key_of accepted digest)
          ≡ some (record { payload_digest = digest; receipt = receipt }))
        (commit_response accepted next digest now run_id token w)
  unfolding applied
  commit_response-stores =
      commit_response-IfOk accepted digest _ w next now run_id token
        (λ old found same. found ∙ ap (λ d. some (record old { payload_digest = d })) same)
        (λ entry meta found s receipt. get-put_self w.receipts (key_of accepted digest) _)
        (λ entry meta found rows rows_at revision step_at s receipt.
          get-put_self w.receipts (key_of accepted digest) _)

  -- A response whose key was not used leaves its task taken and its receipt stored.
  pub commit_response-consumes :
      IsKeyed w.tasks
      → get w.receipts (key_of accepted digest) ≡ none
      → IfOk
          (λ receipt v.
            Consumed accepted.command.task_id
              (key_of accepted digest)
              (record { payload_digest = digest; receipt = receipt })
              v)
          (commit_response accepted next digest now run_id token w)
  unfolding restate applied
  commit_response-consumes keyed unused =
      commit_response-IfOk accepted digest _ w next now run_id token
        (λ old used same. absurd (cc (used, unused)))
        (λ entry meta found s receipt. record {
          taken = answered_here entry meta found;
          used = get-put_self w.receipts (key_of accepted digest) _;
        })
        (λ entry meta found rows rows_at revision step_at s receipt. record {
          taken =
              put_meta-Taken _ entry.job_id _ _ _
                (supersede-Taken _ entry.job_id meta.head _ _ (answered_here entry meta found));
          used = get-put_self w.receipts (key_of accepted digest) _;
        })
    where
      answered_here :
          (entry : Task) (meta : JobMeta)
          → Found accepted digest next w entry meta
          → Taken accepted.command.task_id
              (put w.tasks entry.task.task_id (answered_task entry))
              w.job_meta
      answered_here entry meta found =
          let known = found.known in
          record {
            task = answered_task entry;
            stored =
                subst
                  (λ i.
                    get (put w.tasks entry.task.task_id (answered_task entry)) i
                    ≡ some (answered_task entry))
                  (keyed accepted.command.task_id entry found.located)
                  (get-put_self w.tasks entry.task.task_id (answered_task entry));
            closed = refl;
            known = rw known refl;
          }

-- Registration writes no receipt and overwrites no task.
pub seed-Consumed :
    (job_id : ℕ) (principal_id : String) (snapshot : RevisionSnapshot) (tasks : List HumanTask)
    (w : TaskStore) (k : ℕ) (key : String × String) (stored : StoredReceipt)
    → Consumed k key stored w
    → Consumed k key stored (seed job_id principal_id snapshot tasks w).1
seed-Consumed job_id principal_id snapshot tasks w k key stored c =
    seed-keeps (Consumed k key stored) job_id principal_id snapshot tasks w c (λ same. record {
      taken = record {
        task = c.taken.task;
        stored =
            get-registered job_id snapshot.revision.reference.case_id principal_id tasks w.tasks k
              c.taken.stored;
        closed = c.taken.closed;
        known = is_some-put w.job_meta job_id c.taken.task.job_id _ c.taken.known;
      };
      used = c.used;
    })
