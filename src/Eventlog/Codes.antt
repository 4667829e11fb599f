-- ===== src/Eventlog/Codes.antt =====
-- The bytes that stand for an event kind, an actor, a visibility and a redaction state in a frame
-- (crates/crustcore-eventlog/src/lib.rs, and the lists of crates/crustcore-kernel/src/event.rs).
use crust_core.Prelude.{ℕ, ◌==◌, ◌≡◌, refl, if◌then◌else◌, Option, none, some, List, [], ◌∷◌}
use crust_core.Kernel.Event.{EventKind, Actor, Visibility, model_visible, internal_only}

pub data RedactionState : Type 0 where
  clean redacted : RedactionState

-- `RedactionState::to_byte`
abbrev pub redaction_to_byte : RedactionState → ℕ
redaction_to_byte RedactionState.clean = 0
redaction_to_byte RedactionState.redacted = 1

-- `RedactionState::from_byte`
abbrev pub redaction_from_byte : ℕ → Option RedactionState
redaction_from_byte b =
    if b == 0
    then some RedactionState.clean
    else if b == 1
    then some RedactionState.redacted
    else none

abbrev pub visibility_to_byte : Visibility → ℕ
visibility_to_byte model_visible = 0
visibility_to_byte internal_only = 1

abbrev pub visibility_from_byte : ℕ → Option Visibility
visibility_from_byte b =
    if b == 0 then some model_visible else if b == 1 then some internal_only else none

-- `Actor::ALL`
abbrev pub all_actors : List Actor
all_actors =
    Actor.kernel ∷ Actor.user ∷ Actor.model ∷ Actor.subagent ∷ Actor.external_worker ∷ Actor.adapter
    ∷ []

-- `actor as u8`
abbrev pub actor_byte : Actor → ℕ
actor_byte Actor.kernel = 0
actor_byte Actor.user = 1
actor_byte Actor.model = 2
actor_byte Actor.subagent = 3
actor_byte Actor.external_worker = 4
actor_byte Actor.adapter = 5

-- `EventKind::ALL`
abbrev pub all_kinds : List EventKind
all_kinds =
    EventKind.task_created ∷ EventKind.task_planned ∷ EventKind.job_queued ∷ EventKind.job_leased
    ∷ EventKind.model_request_started ∷ EventKind.model_output_received
    ∷ EventKind.tool_call_requested ∷ EventKind.tool_call_approved ∷ EventKind.tool_call_denied
    ∷ EventKind.tool_call_started ∷ EventKind.tool_call_completed ∷ EventKind.sandbox_started
    ∷ EventKind.command_started ∷ EventKind.command_output_captured ∷ EventKind.command_completed
    ∷ EventKind.patch_proposed ∷ EventKind.patch_verified ∷ EventKind.patch_rejected
    ∷ EventKind.approval_requested ∷ EventKind.approval_resolved ∷ EventKind.user_message_queued
    ∷ EventKind.user_steer_received ∷ EventKind.github_operation_requested
    ∷ EventKind.github_operation_completed ∷ EventKind.secret_requested
    ∷ EventKind.secret_handle_stored ∷ EventKind.risk_detected ∷ EventKind.task_completed
    ∷ EventKind.task_failed ∷ EventKind.task_killed ∷ []

-- `kind as u8`
abbrev pub kind_byte : EventKind → ℕ
kind_byte EventKind.task_created = 0
kind_byte EventKind.task_planned = 1
kind_byte EventKind.job_queued = 2
kind_byte EventKind.job_leased = 3
kind_byte EventKind.model_request_started = 4
kind_byte EventKind.model_output_received = 5
kind_byte EventKind.tool_call_requested = 6
kind_byte EventKind.tool_call_approved = 7
kind_byte EventKind.tool_call_denied = 8
kind_byte EventKind.tool_call_started = 9
kind_byte EventKind.tool_call_completed = 10
kind_byte EventKind.sandbox_started = 11
kind_byte EventKind.command_started = 12
kind_byte EventKind.command_output_captured = 13
kind_byte EventKind.command_completed = 14
kind_byte EventKind.patch_proposed = 15
kind_byte EventKind.patch_verified = 16
kind_byte EventKind.patch_rejected = 17
kind_byte EventKind.approval_requested = 18
kind_byte EventKind.approval_resolved = 19
kind_byte EventKind.user_message_queued = 20
kind_byte EventKind.user_steer_received = 21
kind_byte EventKind.github_operation_requested = 22
kind_byte EventKind.github_operation_completed = 23
kind_byte EventKind.secret_requested = 24
kind_byte EventKind.secret_handle_stored = 25
kind_byte EventKind.risk_detected = 26
kind_byte EventKind.task_completed = 27
kind_byte EventKind.task_failed = 28
kind_byte EventKind.task_killed = 29

-- `ALL.into_iter().find(|x| *x as u8 == b)`
unfoldable pub find_byte : {A : Type 0} → (A → ℕ) → ℕ → List A → Option A
find_byte code b [] = none
find_byte code b (x ∷ xs) = if code x == b then some x else find_byte code b xs

-- `actor_from_byte`
abbrev pub actor_from_byte : ℕ → Option Actor
actor_from_byte b = find_byte actor_byte b all_actors

-- `kind_from_byte`
abbrev pub kind_from_byte : ℕ → Option EventKind
kind_from_byte b = find_byte kind_byte b all_kinds

pub actor_from_byte-actor_byte : (a : Actor) → actor_from_byte (actor_byte a) ≡ some a
unfolding find_byte
actor_from_byte-actor_byte Actor.kernel = refl
actor_from_byte-actor_byte Actor.user = refl
actor_from_byte-actor_byte Actor.model = refl
actor_from_byte-actor_byte Actor.subagent = refl
actor_from_byte-actor_byte Actor.external_worker = refl
actor_from_byte-actor_byte Actor.adapter = refl

pub kind_from_byte-kind_byte : (k : EventKind) → kind_from_byte (kind_byte k) ≡ some k
unfolding find_byte
kind_from_byte-kind_byte EventKind.task_created = refl
kind_from_byte-kind_byte EventKind.task_planned = refl
kind_from_byte-kind_byte EventKind.job_queued = refl
kind_from_byte-kind_byte EventKind.job_leased = refl
kind_from_byte-kind_byte EventKind.model_request_started = refl
kind_from_byte-kind_byte EventKind.model_output_received = refl
kind_from_byte-kind_byte EventKind.tool_call_requested = refl
kind_from_byte-kind_byte EventKind.tool_call_approved = refl
kind_from_byte-kind_byte EventKind.tool_call_denied = refl
kind_from_byte-kind_byte EventKind.tool_call_started = refl
kind_from_byte-kind_byte EventKind.tool_call_completed = refl
kind_from_byte-kind_byte EventKind.sandbox_started = refl
kind_from_byte-kind_byte EventKind.command_started = refl
kind_from_byte-kind_byte EventKind.command_output_captured = refl
kind_from_byte-kind_byte EventKind.command_completed = refl
kind_from_byte-kind_byte EventKind.patch_proposed = refl
kind_from_byte-kind_byte EventKind.patch_verified = refl
kind_from_byte-kind_byte EventKind.patch_rejected = refl
kind_from_byte-kind_byte EventKind.approval_requested = refl
kind_from_byte-kind_byte EventKind.approval_resolved = refl
kind_from_byte-kind_byte EventKind.user_message_queued = refl
kind_from_byte-kind_byte EventKind.user_steer_received = refl
kind_from_byte-kind_byte EventKind.github_operation_requested = refl
kind_from_byte-kind_byte EventKind.github_operation_completed = refl
kind_from_byte-kind_byte EventKind.secret_requested = refl
kind_from_byte-kind_byte EventKind.secret_handle_stored = refl
kind_from_byte-kind_byte EventKind.risk_detected = refl
kind_from_byte-kind_byte EventKind.task_completed = refl
kind_from_byte-kind_byte EventKind.task_failed = refl
kind_from_byte-kind_byte EventKind.task_killed = refl

pub visibility_from_byte-visibility_to_byte :
    (v : Visibility) → visibility_from_byte (visibility_to_byte v) ≡ some v
visibility_from_byte-visibility_to_byte model_visible = refl
visibility_from_byte-visibility_to_byte internal_only = refl

pub redaction_from_byte-redaction_to_byte :
    (r : RedactionState) → redaction_from_byte (redaction_to_byte r) ≡ some r
redaction_from_byte-redaction_to_byte RedactionState.clean = refl
redaction_from_byte-redaction_to_byte RedactionState.redacted = refl
