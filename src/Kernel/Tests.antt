-- ===== src/Kernel/Tests.antt =====
-- The kernel run on concrete events, and the theorems at concrete inputs.
use crust_core.Prelude.{
  none, ◌≡◌, refl, some, List, [], ◌∷◌, ◌++◌, ◌≤◌, true, is_some, Option, All, arith,
}
use crust_core.Prelude.Arena.{find, modify, map_where}
use crust_core.Types.Status.{TaskStatus, ApprovalResolution, Reversibility, is_terminal}
use crust_core.Types.Budget.{
  standard_task, bounded_on, is_fully_bounded, add_on, check_on, check, record_delta, delta_of,
}
use crust_core.Policy.{supervised, classify}
use crust_core.Kernel.Event.{
  Event, adapter, user, model, task_created_event, inbound, with_task, with_job, with_lease_owner,
  with_tool_call, with_approval, with_resolution, with_reversibility, job_queued, job_leased,
  tool_call_requested, approval_resolved, append_event, run_tool, request_approval, task_completed,
  task_killed,
}
use crust_core.Kernel.State.{
  Kernel, new, new_task, task_status, TaskEntry, ApprovalEntry, find_task,
}
use crust_core.Kernel.Resume.{IsTimelyApproval, Verdict}
use crust_core.Kernel.Resume.Steps.{step_resumes}
use crust_core.Kernel.Tables.{task_move, task_next, job_move, job_next}
use crust_core.Kernel.Jobs.{
  any_runs_for, is_runnable_job, advance, touch_job, touch_found, touch_named, queue_found,
  queue_job, end_jobs, apply_kind, apply_job, drain, drain_ready,
}
use crust_core.Kernel.Approvals.{
  await_approval, minted, set_task_status, run_if_runnable, ask_for, ask_once, act_on,
  classify_request, settle, resolve_found, resolve_named, resolve_approval,
}
use crust_core.Kernel.Tasks.{◌⟶◌, IsConsistent}
use crust_core.Kernel.Tasks.Lifecycle.{step-IsConsistent, run-IsConsistent}
use crust_core.Kernel.Tasks.Runs.{step-along, run-terminal, step-other}
use crust_core.Kernel.Pending.{IsSound, run-IsSound}
use crust_core.Kernel.Authority.{IsAuthorized}
use crust_core.Kernel.Authority.Steps.{step-IsAuthorized}
use crust_core.Kernel.Sequence.{step-frontier, step_redelivered}
use crust_core.Kernel.Step.{
  by_table, dispatch, conclude, on_event, on_check, on_budget, overdue, on_overdue, on_task,
  on_found, on_named, create_task, process, step, run,
}

-- A test that unfolds this opens the whole kernel.
open_kernel : Unit {0}
unfolding find modify map_where bounded_on is_fully_bounded add_on check_on check record_delta
    delta_of classify new task_move task_next job_move job_next any_runs_for is_runnable_job advance
    touch_job touch_found touch_named queue_found queue_job end_jobs apply_kind apply_job drain
    drain_ready set_task_status run_if_runnable ask_for ask_once act_on classify_request settle
    resolve_found resolve_named resolve_approval by_table dispatch conclude on_event on_check
    on_budget overdue on_overdue on_task on_found on_named create_task process step run
open_kernel = tt

abbrev start : Kernel
start = new (record { profile = supervised })

abbrev opening : List Event
opening =
    task_created_event 1 adapter 1 standard_task
    ∷ with_job (with_task (inbound job_queued 2 adapter) 1) 1
    ∷ with_lease_owner (with_job (with_task (inbound job_leased 3 adapter) 1) 1) 1
    ∷ []

-- `running_task` of the source's tests
running_task : task_status 1 (run opening start) ≡ some TaskStatus.running
unfolding open_kernel
running_task = refl

abbrev irreversible_request : Event
irreversible_request =
    with_reversibility
      (with_tool_call (with_job (with_task (inbound tool_call_requested 4 model) 1) 1) 1)
      Reversibility.irreversible

-- `irreversible_request_requires_approval_path`
asks_first :
    (step irreversible_request (run opening start)).1
    ≡ append_event (some 1) ∷ request_approval 1 ∷ []
unfolding open_kernel
asks_first = refl

abbrev approval : Event
approval =
    with_resolution
      (with_tool_call (with_approval (with_task (inbound approval_resolved 5 user) 1) 1) 1)
      ApprovalResolution.approve

released :
    (step approval (run (opening ++ irreversible_request ∷ []) start)).1
    ≡ append_event (some 1) ∷ run_tool 1 ∷ []
unfolding open_kernel
released = refl

abbrev asked : Kernel
asked = run (opening ++ irreversible_request ∷ []) start

abbrev working : Kernel
working = run opening start

entry_of : (o : Option TaskEntry) → is_some o ≡ true → (t : TaskEntry) × (o ≡ some t)
entry_of (some t) h = (t, refl)
entry_of none h = cc

-- The task of the opening, as it stands in a kernel that knows it.
the_task : (t : TaskEntry) × (find_task 1 working ≡ some t)
unfolding open_kernel
the_task = entry_of (find_task 1 working) refl

step-IsAuthorized_example :
    All (IsAuthorized approval asked (step approval asked).0) (step approval asked).1
step-IsAuthorized_example = step-IsAuthorized approval asked

run-IsConsistent_example : All IsConsistent (run opening start).tasks
run-IsConsistent_example = run-IsConsistent opening (record { profile = supervised })

run-IsSound_example : IsSound (run opening start)
run-IsSound_example = run-IsSound opening (record { profile = supervised }) (omega arith)

abbrev finish : Event
finish = with_task (inbound task_completed 4 adapter) 1

abbrev done_kernel : Kernel
done_kernel = (step finish working).0

completed_entry : (t : TaskEntry) × (find_task 1 done_kernel ≡ some t)
unfolding open_kernel
completed_entry = entry_of (find_task 1 done_kernel) refl

done-IsConsistent : All IsConsistent done_kernel.tasks
done-IsConsistent =
    step-IsConsistent finish working (run-IsConsistent opening (record { profile = supervised }))

completed_ended : is_terminal completed_entry.0.status ≡ true
unfolding open_kernel completed_entry entry_of
completed_ended = refl

run-terminal_example :
    task_status 1 (run (irreversible_request ∷ approval ∷ []) done_kernel)
    ≡ some completed_entry.0.status
run-terminal_example =
    run-terminal (irreversible_request ∷ approval ∷ []) done_kernel 1 completed_entry.0
      done-IsConsistent completed_entry.1 completed_ended

step-along_example :
    (t' : TaskEntry) × (find_task 1 (step finish working).0 ≡ some t')
    × (the_task.0.status ⟶ t'.status)
step-along_example =
    step-along finish working 1 the_task.0
      (run-IsConsistent opening (record { profile = supervised })) the_task.1

abbrev elsewhere : Event
elsewhere = with_task (inbound task_killed 4 adapter) 2

step-other_example : find_task 1 (step elsewhere working).0 ≡ some the_task.0
step-other_example =
    step-other elsewhere working 1 the_task.0
      (run-IsConsistent opening (record { profile = supervised })) the_task.1 refl

step_redelivered_example :
    step finish (run (approval ∷ []) (step finish working).0)
    ≡ (run (approval ∷ []) (step finish working).0, [])
step_redelivered_example = step_redelivered finish (approval ∷ []) working (λ p. omega (arith, p))

step-frontier_example :
    (working.applied_through ≤ (step finish working).0.applied_through)
    × (finish.seq ≤ (step finish working).0.applied_through)
step-frontier_example = step-frontier finish working

-- The task and the approval of `asked`.
abbrev waiting_task : TaskEntry
waiting_task = record (await_approval 1 (new_task 1 standard_task 1)) { last_event = 4 }

abbrev asked_approval : ApprovalEntry
asked_approval = minted 1 irreversible_request waiting_task start

-- The example of the theorem: the event is such an approval, and the task is resumed.
approval-IsTimelyApproval : IsTimelyApproval approval asked waiting_task asked_approval
unfolding open_kernel
approval-IsTimelyApproval = record {
  kind = refl;
  user = refl;
  task = refl;
  approval = refl;
  resolution = refl;
  affordable = tt;
  awaited = refl;
  on_record = refl;
  pending = refl;
  operation = refl;
  in_time = refl;
  new = refl;
}

asked_task : find_task 1 asked ≡ some waiting_task
unfolding open_kernel
asked_task = refl

step_resumes_example : Verdict approval asked waiting_task (step approval asked).0
step_resumes_example =
    step_resumes approval asked waiting_task
      (run-IsConsistent (opening ++ irreversible_request ∷ []) (record { profile = supervised }))
      asked_task refl
