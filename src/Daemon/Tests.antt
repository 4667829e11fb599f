-- ===== src/Daemon/Tests.antt =====
-- The theorems on the daemon's decisions at concrete tasks.
use crust_core.Prelude.{◌≡◌, ◌↔◌, true, List, [], ◌∷◌}
use crust_core.Daemon.Task.{
  standard, high, native, codex, feature, security_sensitive, ExecutorKind,
}
use crust_core.Daemon.Router.{decide_routing}
use crust_core.Daemon.Routed.{IsRouted, decide_routing-IsRouted}
use crust_core.Daemon.Review.{
  Role, reviewer, security_auditor, Verdict, approve, block, required_reviewers,
}
use crust_core.Daemon.TaskLoop.{ready_to_integrate, finalize_task}
use crust_core.Daemon.Gated.{Cleared}
use crust_core.Daemon.Integrated.{finalize_task_iff}
use crust_core.Prelude.{ℕ, ◌≢◌, ◌++◌, refl, arith}
use crust_core.Prelude.Text.{Text, text_eq}
use crust_core.Types.Hash.{hmac_sha256}
use crust_core.Types.Hash.Laws.{hex_into}
use crust_core.Daemon.Webhook.{
  WebhookRequest, push, GitHubEnvelope, signature_prefix, new_verifier, has_text, accept,
  signature_ok, envelope, verify_request,
}
use crust_core.Daemon.Inbound.{verify_all, signed_ok, verify_request_replayed}

abbrev fleet : List ExecutorKind
fleet = codex ∷ codex ∷ native ∷ []

decide_routing-IsRouted_example :
    IsRouted feature standard 5 fleet (decide_routing feature standard 5 fleet)
decide_routing-IsRouted_example = decide_routing-IsRouted feature standard 5 fleet

abbrev reviews : List (Role × Verdict)
reviews = (reviewer, approve) ∷ (security_auditor, block (110 ∷ 111 ∷ [])) ∷ []

finalize_task_iff_example :
    (finalize_task security_sensitive high true reviews 10 60 ≡ ready_to_integrate)
    ↔ ((true ≡ true) × Cleared (required_reviewers security_sensitive high) reviews)
finalize_task_iff_example = finalize_task_iff security_sensitive high true reviews 10 60

abbrev secret : List ℕ
secret = 7 ∷ 7 ∷ []

abbrev hide : List ℕ → Text
hide body = 42 ∷ []

-- A push with a signed body, and the identifier 1.
abbrev pushed : WebhookRequest
pushed = record {
  event = 112 ∷ 117 ∷ 115 ∷ 104 ∷ [];
  delivery_id = 49 ∷ [];
  signature = signature_prefix ++ hex_into (hmac_sha256 secret (123 ∷ 125 ∷ []));
  body = 123 ∷ 125 ∷ [];
}

abbrev shown : GitHubEnvelope
shown = record { kind = push; delivery_id = 49 ∷ []; payload = 42 ∷ [] }

pushed_accepted :
    (verify_request hide pushed (verify_all hide [] (new_verifier secret))).1 ≡ envelope shown
unfolding verify_request verify_all accept has_text text_eq
pushed_accepted = rw (signed_ok secret (123 ∷ 125 ∷ [])) refl

verify_request_replayed_example :
    (signature_ok (verify_all hide [] (new_verifier secret)).secret pushed.signature pushed.body
      ≡ true)
    × ((f : GitHubEnvelope)
        → (verify_request hide pushed (
            verify_all hide
              (pushed ∷ [])
              (verify_request hide pushed (verify_all hide [] (new_verifier secret))).0)).1
          ≢ envelope f)
verify_request_replayed_example =
    verify_request_replayed hide secret [] (pushed ∷ []) pushed pushed shown pushed_accepted refl
      (omega arith)
