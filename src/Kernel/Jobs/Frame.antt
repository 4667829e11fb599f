-- ===== src/Kernel/Jobs/Frame.antt =====
-- The job half of the kernel writes to jobs and to the ready queue only.
use crust_core.Prelude.{
  ℕ, zero, suc, List-cases, if_intro, ◌≡◌, refl, inl, inr, ◌&&◌, Option, none, some, List, [], ◌∷◌,
  ◌++◌, arith,
}
use crust_core.Prelude.Arena.{modify}
use crust_core.Types.Status.{JobStatus, is_terminal_job}
use crust_core.Kernel.Event.{EventKind, Event}
use crust_core.Kernel.State.{Kernel, JobEntry, new_job, is_expired_at, find_job, update_job}
use crust_core.Kernel.Jobs.{
  is_active, owners_differ, is_job_leased, advance, requeue, touch_job, touch_found, touch_named,
  queue_found, queue_job, end_jobs, apply_kind, apply_job, drain, drain_ready,
}

pub record SameButJobs (k k' : Kernel) : Type 0 where
  pub tasks : k'.tasks ≡ k.tasks
  pub approvals : k'.approvals ≡ k.approvals
  pub policy : k'.policy ≡ k.policy
  pub next_approval : k'.next_approval ≡ k.next_approval
  pub next_seq : k'.next_seq ≡ k.next_seq
  pub applied_through : k'.applied_through ≡ k.applied_through

-- Two states that differ in jobs and the ready queue.
same :
    (k : Kernel) (jobs : List JobEntry) (ready : List ℕ)
    → SameButJobs k (record k { jobs = jobs; ready = ready })
same k jobs ready = record {
  tasks = refl;
  approvals = refl;
  policy = refl;
  next_approval = refl;
  next_seq = refl;
  applied_through = refl;
}

update_job-SameButJobs :
    (jid : ℕ) (f : JobEntry → JobEntry) (k : Kernel) → SameButJobs k (update_job jid f k)
update_job-SameButJobs jid f k = same k (modify JobEntry.id jid f k.jobs) k.ready

touch_job-SameButJobs :
    (jid : ℕ) (j : JobEntry) (e : Event) (k : Kernel) → SameButJobs k (touch_job jid j e k)
unfolding touch_job
touch_job-SameButJobs jid j e k =
    if_intro (SameButJobs k) (is_terminal_job j.status) (same k k.jobs k.ready) (
      if_intro (SameButJobs k) (is_active j.status && owners_differ j.lease.owner e.lease_owner)
        (same k k.jobs k.ready)
        (if_intro (SameButJobs k) (is_active j.status && is_expired_at j.lease e.timestamp)
          (update_job-SameButJobs jid (λ x. record x { status = JobStatus.expired }) k)
          (if_intro (SameButJobs k) (is_job_leased e.kind)
            (same k (update_job jid (advance e) k).jobs (k.ready ++ jid ∷ []))
            (update_job-SameButJobs jid (advance e) k))))

touch_found-SameButJobs :
    (jid : ℕ) (o : Option JobEntry) (e : Event) (k : Kernel) → SameButJobs k (touch_found jid o e k)
unfolding touch_found
touch_found-SameButJobs jid none e k = same k k.jobs k.ready
touch_found-SameButJobs jid (some j) e k = touch_job-SameButJobs jid j e k

touch_named-SameButJobs :
    (o : Option ℕ) (e : Event) (k : Kernel) → SameButJobs k (touch_named o e k)
unfolding touch_named
touch_named-SameButJobs none e k = same k k.jobs k.ready
touch_named-SameButJobs (some jid) e k = touch_found-SameButJobs jid (find_job jid k) e k

queue_found-SameButJobs :
    (jid tid : ℕ) (o : Option JobEntry) (e : Event) (k : Kernel)
    → SameButJobs k (queue_found jid tid o e k)
unfolding queue_found
queue_found-SameButJobs jid tid none e k = same k (k.jobs ++ new_job jid tid e.seq ∷ []) k.ready
queue_found-SameButJobs jid tid (some j) e k = update_job-SameButJobs jid requeue k

queue_job-SameButJobs :
    (j t : Option ℕ) (e : Event) (k : Kernel) → SameButJobs k (queue_job j t e k)
unfolding queue_job
queue_job-SameButJobs (some jid) (some tid) e k =
    queue_found-SameButJobs jid tid (find_job jid k) e k
queue_job-SameButJobs (some jid) none e k = same k k.jobs k.ready
queue_job-SameButJobs none t e k = same k k.jobs k.ready

end_jobs-SameButJobs :
    (to : JobStatus) (t : Option ℕ) (k : Kernel) → SameButJobs k (end_jobs to t k)
unfolding end_jobs
end_jobs-SameButJobs to none k = same k k.jobs k.ready
end_jobs-SameButJobs to (some tid) k = same k (end_jobs to (some tid) k).jobs k.ready

apply_kind-SameButJobs :
    (kind : EventKind) (e : Event) (k : Kernel) → SameButJobs k (apply_kind kind e k)
unfolding apply_kind
apply_kind-SameButJobs EventKind.job_queued e k = queue_job-SameButJobs e.job_id e.task_id e k
apply_kind-SameButJobs EventKind.task_killed e k = end_jobs-SameButJobs JobStatus.killed e.task_id k
apply_kind-SameButJobs EventKind.task_failed e k = end_jobs-SameButJobs JobStatus.failed e.task_id k
apply_kind-SameButJobs _ e k = touch_named-SameButJobs e.job_id e k

pub apply_job-SameButJobs : (e : Event) (k : Kernel) → SameButJobs k (apply_job e k)
unfolding apply_job
apply_job-SameButJobs e k = apply_kind-SameButJobs e.kind e k

-- Draining takes from the ready queue only.
pub record SameButReady (k k' : Kernel) : Type 0 where
  pub same : SameButJobs k k'
  pub jobs : k'.jobs ≡ k.jobs

pub drain-SameButReady : (n : ℕ) (k : Kernel) → SameButReady k (drain n k).0
unfolding drain
drain-SameButReady zero k = ground arith
drain-SameButReady (suc n) k = elim (List-cases k.ready) [
  | inl e ↦ rw e (ground arith)
  | inr (jid, rest, e) ↦
      let r = drain-SameButReady n (record k { ready = rest }) in
      rw e (record {
        same = record {
          tasks = r.same.tasks;
          approvals = r.same.approvals;
          policy = r.same.policy;
          next_approval = r.same.next_approval;
          next_seq = r.same.next_seq;
          applied_through = r.same.applied_through;
        };
        jobs = r.jobs;
      })
]

pub drain_ready-SameButReady : (k : Kernel) → SameButReady k (drain_ready k).0
unfolding drain_ready
drain_ready-SameButReady k = drain-SameButReady 1 k
