-- ===== src/Daemon/Webhook.antt =====
-- The verification of inbound webhooks (webhook.rs). Decoding a body as text and redacting it are
-- one function, a parameter. The `HashSet` of the guard is a list without repetition.
use crust_core.Prelude.{
  ℕ, ◌*◌, ◌==◌, ◌||◌, not, ltb, leb, if◌then◌else◌, Bool, true, false, Option, none, some, List, [],
  ◌∷◌, ◌++◌, length, take,
}
use crust_core.Prelude.Text.{Text, text_eq}
use crust_core.Types.Hash.{hmac_sha256, ct_eq, hex32_decode}
use crust_core.Flow.State.{boundary}

-- `MAX_WEBHOOK_BODY`
abbrev pub max_webhook_body : ℕ
max_webhook_body = 1024 * 1024

-- `MAX_WEBHOOK_SUMMARY`
abbrev pub max_webhook_summary : ℕ
max_webhook_summary = 8 * 1024

-- `MAX_SEEN_DELIVERIES`
abbrev pub max_seen_deliveries : ℕ
max_seen_deliveries = 4096

-- `MAX_DELIVERY_ID`
abbrev pub max_delivery_id : ℕ
max_delivery_id = 128

pub record WebhookRequest : Type 0 where
  pub event : Text
  pub delivery_id : Text
  pub signature : Text
  pub body : List ℕ

pub data WebhookReject : Type 0 where
  too_large empty_delivery delivery_id_too_long bad_signature replay : WebhookReject

pub data GitHubEventKind : Type 0 where
  issue pull_request check_suite issue_comment push other : GitHubEventKind

pub record GitHubEnvelope : Type 0 where
  pub kind : GitHubEventKind
  pub delivery_id : Text
  pub payload : Text

pub record ReplayGuard : Type 0 where
  pub order : List Text
  pub set : List Text

-- `ReplayGuard::new`
abbrev pub new_guard : ReplayGuard
new_guard = record { order = []; set = [] }

-- `HashSet::contains`
unfoldable pub has_text : Text → List Text → Bool
has_text id [] = false
has_text id (x ∷ xs) = text_eq x id || has_text id xs

-- `HashSet::remove`
unfoldable pub remove : Text → List Text → List Text
remove id [] = []
remove id (x ∷ xs) = let more = remove id xs in if text_eq x id then more else x ∷ more

-- `pop_front`, and the removal of what it popped
abbrev pub pop_oldest : List Text → List Text → ReplayGuard
pop_oldest [] set = record { order = []; set = set }
pop_oldest (old ∷ rest) set = record { order = rest; set = remove old set }

abbrev pub make_room : ReplayGuard → ReplayGuard
make_room g = if leb max_seen_deliveries (length g.order) then pop_oldest g.order g.set else g

abbrev pub push_back : Text → ReplayGuard → ReplayGuard
push_back id g = record { order = g.order ++ (id ∷ []); set = id ∷ g.set }

-- `ReplayGuard::accept`
unfoldable pub accept : Text → ReplayGuard → ReplayGuard × Bool
accept id g = if has_text id g.set then (g, false) else (push_back id (make_room g), true)

pub record WebhookVerifier : Type 0 where
  pub secret : List ℕ
  pub seen : ReplayGuard

-- `WebhookVerifier::new`
abbrev pub new_verifier : List ℕ → WebhookVerifier
new_verifier secret = record { secret = secret; seen = new_guard }

-- `strip_prefix`
unfoldable pub strip_prefix : Text → Text → Option Text
strip_prefix [] s = some s
strip_prefix (c ∷ p) [] = none
strip_prefix (c ∷ p) (x ∷ s) = if c == x then strip_prefix p s else none

-- The text sha256=
abbrev pub signature_prefix : Text
signature_prefix = 115 ∷ 104 ∷ 97 ∷ 50 ∷ 53 ∷ 54 ∷ 61 ∷ []

abbrev pub matches_mac : List ℕ → List ℕ → Option (List ℕ) → Bool
matches_mac secret body none = false
matches_mac secret body (some provided) = ct_eq provided (hmac_sha256 secret body)

abbrev pub decode_hex : Option Text → Option (List ℕ)
decode_hex none = none
decode_hex (some hex) = hex32_decode hex

-- `WebhookVerifier::signature_ok`
unfoldable pub signature_ok : List ℕ → Text → List ℕ → Bool
signature_ok secret signature body =
    matches_mac secret body (decode_hex (strip_prefix signature_prefix signature))

-- The text pull_request_review_comment
abbrev review_comment : Text
review_comment =
    112 ∷ 117 ∷ 108 ∷ 108 ∷ 95 ∷ 114 ∷ 101 ∷ 113 ∷ 117 ∷ 101 ∷ 115 ∷ 116 ∷ 95 ∷ 114 ∷ 101 ∷ 118
    ∷ 105 ∷ 101 ∷ 119 ∷ 95 ∷ 99 ∷ 111 ∷ 109 ∷ 109 ∷ 101 ∷ 110 ∷ 116 ∷ []

-- `parse_kind`, whose arms compare with the texts of the event names
abbrev pub parse_kind : Text → GitHubEventKind
parse_kind event =
    if text_eq event (105 ∷ 115 ∷ 115 ∷ 117 ∷ 101 ∷ 115 ∷ [])
    then issue
    else if text_eq event
        (112 ∷ 117 ∷ 108 ∷ 108 ∷ 95 ∷ 114 ∷ 101 ∷ 113 ∷ 117 ∷ 101 ∷ 115 ∷ 116 ∷ [])
    then pull_request
    else if text_eq event (99 ∷ 104 ∷ 101 ∷ 99 ∷ 107 ∷ 95 ∷ 115 ∷ 117 ∷ 105 ∷ 116 ∷ 101 ∷ [])
        || text_eq event (99 ∷ 104 ∷ 101 ∷ 99 ∷ 107 ∷ 95 ∷ 114 ∷ 117 ∷ 110 ∷ [])
    then check_suite
    else if text_eq event
          (105 ∷ 115 ∷ 115 ∷ 117 ∷ 101 ∷ 95 ∷ 99 ∷ 111 ∷ 109 ∷ 109 ∷ 101 ∷ 110 ∷ 116 ∷ [])
        || text_eq event review_comment
    then issue_comment
    else if text_eq event (112 ∷ 117 ∷ 115 ∷ 104 ∷ [])
    then push
    else other

-- `BoundedText::truncated`, with the loop of `declassify`
abbrev pub truncated : ℕ → Text → Text
truncated max s = if leb (length s) max then s else take (boundary s max) s

pub data Inbound : Type 0 where
  envelope : GitHubEnvelope → Inbound
  rejected : WebhookReject → Inbound

-- The end of `verify`, after the replay guard.
abbrev pub on_accept :
    (List ℕ → Text)
    → WebhookRequest
    → WebhookVerifier
    → ReplayGuard × Bool
    → WebhookVerifier × Inbound
on_accept redact req v (seen, false) = (record v { seen = seen }, rejected replay)
on_accept redact req v (seen, true) = (
  record v { seen = seen },
  envelope record {
    kind = parse_kind req.event;
    delivery_id = truncated max_delivery_id req.delivery_id;
    payload = truncated max_webhook_summary (redact req.body);
  },
)

-- `WebhookVerifier::verify`
unfoldable pub verify_request :
    (List ℕ → Text) → WebhookRequest → WebhookVerifier → WebhookVerifier × Inbound
verify_request redact req v =
    if ltb max_webhook_body (length req.body)
    then (v, rejected too_large)
    else if length req.delivery_id == 0
    then (v, rejected empty_delivery)
    else if ltb max_delivery_id (length req.delivery_id)
    then (v, rejected delivery_id_too_long)
    else if not (signature_ok v.secret req.signature req.body)
    then (v, rejected bad_signature)
    else on_accept redact req v (accept req.delivery_id v.seen)
