-- ===== src/Daemon/Inbound.antt =====
-- The replay of webhooks, over requests.
use crust_core.Prelude.{
  ℕ, suc, ◌+◌, ◌<◌, ◌≡◌, ◌≢◌, refl, sym, ap, ◌∙◌, subst, ◌⊎◌, inl, inr, Bool-cases, ◌==◌, ltb, Bool,
  true, false, List, [], ◌∷◌, ◌++◌, length, arith,
}
use crust_core.Prelude.Text.{Text}
use crust_core.Daemon.Webhook.{
  max_webhook_body, max_delivery_id, WebhookRequest, GitHubEnvelope, ReplayGuard, has_text, accept,
  WebhookVerifier, new_verifier, signature_prefix, strip_prefix, signature_ok, envelope, on_accept,
  verify_request,
}
use crust_core.Types.Hash.{hmac_sha256}
use crust_core.Types.Hash.Laws.{hex_into, hex32_decode-hex_into, ct_eq_iff}
use crust_core.Receipts.Minted.{hmac_sha256-IsDigest}
use crust_core.Daemon.Replay.{IsGuard, accept-IsGuard}
use crust_core.Daemon.Remembered.{
  IsRemembered, aged, accept-IsRemembered, first_seen, new_guard-IsGuard, refused,
}

module _ (redact : List ℕ → Text) where
  -- `verify`, one request after the other
  unfoldable pub verify_all : List WebhookRequest → WebhookVerifier → WebhookVerifier
  verify_all [] v = v
  verify_all (r ∷ rs) v = verify_all rs (verify_request redact r v).0

  -- A request that fails a check changes nothing; else the guard is asked.
  handled :
      (req : WebhookRequest) (v : WebhookVerifier)
      → (((verify_request redact req v).0 ≡ v)
          × ((e : GitHubEnvelope) → (verify_request redact req v).1 ≢ envelope e))
        ⊎ ((verify_request redact req v ≡ on_accept redact req v (accept req.delivery_id v.seen))
            × (signature_ok v.secret req.signature req.body ≡ true))
  unfolding verify_request
  handled req v = elim (Bool-cases (ltb max_webhook_body (length req.body))) [
    | inl a ↦ rw a (inl (refl, λ e q. ground arith))
    | inr a ↦ elim (Bool-cases (length req.delivery_id == 0)) [
      | inl b ↦ rw (a, b) (inl (refl, λ e q. ground arith))
      | inr b ↦ elim (Bool-cases (ltb max_delivery_id (length req.delivery_id))) [
        | inl c ↦ rw (a, b, c) (inl (refl, λ e q. ground arith))
        | inr c ↦ elim (Bool-cases (signature_ok v.secret req.signature req.body)) [
          | inr d ↦ rw (a, b, c, d) (inl (refl, λ e q. ground arith))
          | inl d ↦ inr (rw (a, b, c, d) refl, d)
        ]
      ]
    ]
  ]

  accept_seen :
      (req : WebhookRequest) (v : WebhookVerifier) (p : ReplayGuard × Bool)
      → (on_accept redact req v p).0.seen ≡ p.0
  accept_seen req v (g, true) = refl
  accept_seen req v (g, false) = refl

  accept_envelope :
      (req : WebhookRequest) (v : WebhookVerifier) (p : ReplayGuard × Bool) (e : GitHubEnvelope)
      → (on_accept redact req v p).1 ≡ envelope e
      → p.1 ≡ true
  accept_envelope req v (g, true) e q = refl
  accept_envelope req v (g, false) e q = ground arith

  -- What the guard is after a request.
  step_seen :
      (req : WebhookRequest) (v : WebhookVerifier)
      → ((verify_request redact req v).0.seen ≡ v.seen)
        ⊎ ((verify_request redact req v).0.seen ≡ (accept req.delivery_id v.seen).0)
  step_seen req v = elim (handled req v) [
    | inl (s, n) ↦ inl (ap (λ x. x.seen) s)
    | inr (s, d) ↦ inr (ap (λ x. x.0.seen) s ∙ accept_seen req v (accept req.delivery_id v.seen))
  ]

  verify_all-IsGuard :
      (rs : List WebhookRequest) (v : WebhookVerifier)
      → IsGuard v.seen
      → IsGuard (verify_all rs v).seen
  unfolding verify_all
  verify_all-IsGuard [] v h = h
  verify_all-IsGuard (r ∷ rs) v h =
      verify_all-IsGuard rs (verify_request redact r v).0 (elim (step_seen r v) [
        | inl s ↦ subst IsGuard (sym s) h
        | inr s ↦ subst IsGuard (sym s) (accept-IsGuard r.delivery_id v.seen h)
      ])

  verify_all-held :
      (id : Text) (rs : List WebhookRequest) (k : ℕ) (v : WebhookVerifier)
      → k + length rs < 4096
      → IsRemembered id k v.seen
      → has_text id (verify_all rs v).seen.set ≡ true
  unfolding verify_all
  verify_all-held id [] k v small r = r.held
  verify_all-held id (x ∷ rs) k v small r =
      verify_all-held id rs (suc k) (verify_request redact x v).0 (omega arith)
        (elim (step_seen x v) [
          | inl s ↦ subst (IsRemembered id (suc k)) (sym s) (aged id k v.seen r)
          | inr s ↦
              subst (IsRemembered id (suc k)) (sym s)
                (accept-IsRemembered id x.delivery_id k v.seen (omega arith) r)
        ])

  never_again :
      (req : WebhookRequest) (v : WebhookVerifier) (e : GitHubEnvelope)
      → has_text req.delivery_id v.seen.set ≡ true
      → (verify_request redact req v).1 ≢ envelope e
  never_again req v e h q = elim (handled req v) [
    | inl (s, n) ↦ n e q
    | inr (s, d) ↦ ground (
      arith,
      refused req.delivery_id v.seen h,
      accept_envelope req v (accept req.delivery_id v.seen) e (sym (ap (λ x. x.1) s) ∙ q),
    )
  ]

  -- A request that is accepted, after any requests to a new verifier, is signed; and no request with
  -- its delivery identifier is accepted after it, as long as fewer than 4096 requests come in between.
  pub verify_request_replayed :
      (secret : List ℕ) (before between : List WebhookRequest) (req again : WebhookRequest)
      (e : GitHubEnvelope)
      → (verify_request redact req (verify_all before (new_verifier secret))).1 ≡ envelope e
      → again.delivery_id ≡ req.delivery_id
      → length between < 4096
      → (signature_ok (verify_all before (new_verifier secret)).secret req.signature req.body
          ≡ true)
        × ((f : GitHubEnvelope)
            → (verify_request redact again (
                verify_all between
                  (verify_request redact req (verify_all before (new_verifier secret))).0)).1
              ≢ envelope f)
  verify_request_replayed secret before between req again e q same few =
      let v = verify_all before (new_verifier secret) in
      let good = verify_all-IsGuard before (new_verifier secret) new_guard-IsGuard in
      elim (handled req v) [
        | inl (s, n) ↦ absurd (n e q)
        | inr (s, d) ↦
            let accepted =
              accept_envelope req v (accept req.delivery_id v.seen) e (sym (ap (λ x. x.1) s) ∙ q) in
            let now = ap (λ x. x.0.seen) s ∙ accept_seen req v (accept req.delivery_id v.seen) in
            let remembered = first_seen req.delivery_id v.seen good accepted in
            (
              d,
              λ f. never_again again (verify_all between (verify_request redact req v).0) f (
                  subst
                    (λ id.
                      has_text id (verify_all between (verify_request redact req v).0).seen.set
                      ≡ true)
                    (sym same)
                    (verify_all-held req.delivery_id between 0 (verify_request redact req v).0
                      (omega arith) (subst (IsRemembered req.delivery_id 0) (sym now) remembered))),
            )
      ]

-- A request whose signature is written from the MAC of its body is signed.
pub signed_ok :
    (secret body : List ℕ)
    → signature_ok secret (signature_prefix ++ hex_into (hmac_sha256 secret body)) body ≡ true
unfolding signature_ok strip_prefix
signed_ok secret body =
    let d = hmac_sha256-IsDigest secret body in
    rw (hex32_decode-hex_into (hmac_sha256 secret body) d.0 d.1)
      ((ct_eq_iff (hmac_sha256 secret body) (hmac_sha256 secret body) refl d.1 d.1).1 refl)
