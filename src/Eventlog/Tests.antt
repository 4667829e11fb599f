-- ===== src/Eventlog/Tests.antt =====
-- The theorems on the log at concrete logs.
use crust_core.Prelude.{ℕ, ◌≡◌, ◌≢◌, ◌↔◌, ◌⊎◌, refl, none, some, List, [], ◌∷◌, ◌++◌, length, arith}
use crust_core.Types.Hash.{zeros}
use crust_core.Kernel.Event.{task_created, tool_call_completed}
use crust_core.Eventlog.Parser.{ok}
use crust_core.Eventlog.Frame.{FrameMeta, new_meta, Decoded, decode_at}
use crust_core.Eventlog.Codec.{FitsMeta, frame_bytes, decode_at-encode}
use crust_core.Eventlog.Log.{
  genesis_prev_hash, ChainStatus, EventLog, new_log, append, walk, verify, verify_to_head,
}
use crust_core.Eventlog.Appends.{append_all, IsAppendable, verify-append_all}
use crust_core.Eventlog.Sound.{IsChain}
use crust_core.Eventlog.Verified.{verify-IsChain, verify-finishes}
use crust_core.Eventlog.Binding.{Forgery, verify_to_head-binds}

abbrev created : FrameMeta
created = record (new_meta 1 task_created) { task_id = some 7 }

abbrev completed : FrameMeta
completed = record (new_meta 2 tool_call_completed) { task_id = some 7; job_id = some 10 }

created-FitsMeta : FitsMeta created
created-FitsMeta = record {
  seq = omega arith;
  timestamp = omega arith;
  task_id = λ t e. ground arith;
  job_id = λ j e. ground arith;
}

completed-FitsMeta : FitsMeta completed
completed-FitsMeta = record {
  seq = omega arith;
  timestamp = omega arith;
  task_id = λ t e. ground arith;
  job_id = λ j e. ground arith;
}

abbrev entries : List (FrameMeta × List ℕ)
entries = (created, 104 ∷ 105 ∷ []) ∷ (completed, 100 ∷ []) ∷ []

entries-IsAppendable : IsAppendable none entries
entries-IsAppendable =
    (created-FitsMeta, omega arith, refl, (completed-FitsMeta, omega arith, refl, tt))

abbrev pub log : EventLog
log = append_all entries new_log

-- A frame of two identifiers, with a payload and something after it.
decode_at-encode_example :
    decode_at (frame_bytes completed (zeros 32) (zeros 32) (100 ∷ 111 ∷ []) (zeros 32) ++ (1 ∷ []))
    ≡ ok record {
      frame = record {
        meta = completed;
        payload_hash = zeros 32;
        prev_hash = zeros 32;
        frame_hash = zeros 32;
      };
      payload = 100 ∷ 111 ∷ [];
      after_payload = zeros 32 ++ (1 ∷ []);
      rest = 1 ∷ [];
    }
unfolding zeros
decode_at-encode_example =
    decode_at-encode completed (zeros 32) (zeros 32) (100 ∷ 111 ∷ []) (zeros 32) (1 ∷ [])
      completed-FitsMeta (omega arith) refl refl refl

verify-append_all_example :
    (verify log ≡ ChainStatus.intact 2)
    × (verify_to_head log.head_hash log ≡ ChainStatus.intact 2)
    × (log.count ≡ 2)
verify-append_all_example = verify-append_all entries entries-IsAppendable

verify-IsChain_example :
    (verify log ≡ ChainStatus.intact 2)
    ↔ ((ds : List Decoded) × (IsChain genesis_prev_hash none log.bytes ds) × (length ds ≡ 2))
verify-IsChain_example = verify-IsChain log 2

verify-finishes_example : verify log ≢ ChainStatus.unfinished
verify-finishes_example = verify-finishes log

-- The log, and the same bytes taken for a log whose count is unknown.
abbrev reloaded : EventLog
reloaded = record log { count = 0 }

verify_to_head-binds_example : (log.bytes ≡ reloaded.bytes) ⊎ Forgery log.bytes reloaded.bytes
unfolding append_all append verify_to_head walk
verify_to_head-binds_example =
    verify_to_head-binds log reloaded log.head_hash 2 2 verify-append_all_example.1
      verify-append_all_example.1
