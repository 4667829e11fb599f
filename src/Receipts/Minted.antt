-- ===== src/Receipts/Minted.antt =====
-- Receipts that were minted verify, and nothing less than all of them verifies as complete.
use crust_core.Prelude.{
  ℕ, ◌+◌, ◌==◌, ◌≡◌, ◌<◌, refl, sym, ap, ◌∙◌, ==_iff, true, false, List, [], ◌∷◌, ◌++◌, length,
  length-append, arith,
}
use crust_core.Prelude.Text.{text_eq_refl}
use crust_core.Types.Hash.{hmac_sha256, ct_eq}
use crust_core.Types.Hash.Laws.{length-sha256, sha256-IsBytes, IsBytes, ct_eq_iff}
use crust_core.Receipts.Chain.{
  genesis_receipt_hash, ToolReceipt, ReceiptParams, ReceiptBreak, ReceiptStatus, receipt_body,
  ReceiptChain, new_chain, unsigned, mint, walk_from, walk, verify, verify_complete,
}

-- `mint`, one call after the other
unfoldable pub mint_all : List ReceiptParams → ReceiptChain → ReceiptChain × List ToolReceipt
mint_all [] c = (c, [])
mint_all (p ∷ ps) c = let (c', r) = mint p c in let (last, rs) = mint_all ps c' in (last, r ∷ rs)

pub hmac_sha256-IsDigest :
    (key msg : List ℕ) → (length (hmac_sha256 key msg) ≡ 32) × IsBytes (hmac_sha256 key msg)
unfolding hmac_sha256
hmac_sha256-IsDigest key msg = (length-sha256 _, sha256-IsBytes _)

ct_eq_refl : (key msg : List ℕ) → ct_eq (hmac_sha256 key msg) (hmac_sha256 key msg) ≡ true
ct_eq_refl key msg =
    let d = hmac_sha256-IsDigest key msg in
    (ct_eq_iff (hmac_sha256 key msg) (hmac_sha256 key msg) refl d.1 d.1).1 refl

-- The MAC is not part of the body.
receipt_body-signed :
    (r : ToolReceipt) (mac : List ℕ) → receipt_body (record r { mac = mac }) ≡ receipt_body r
unfolding receipt_body
receipt_body-signed r mac = refl

walk_from-mint_all :
    (ps : List ReceiptParams) (c : ReceiptChain) (total index : ℕ)
    → walk_from c.key total c.head index (mint_all ps c).1
      ≡ (ReceiptStatus.intact total, (mint_all ps c).0.head)
unfolding walk_from mint_all mint
walk_from-mint_all [] c total index = refl
walk_from-mint_all (p ∷ ps) c total index =
    let r = unsigned p c.head in
    rw
      (
        text_eq_refl c.head,
        receipt_body-signed r (hmac_sha256 c.key (receipt_body r)),
        ct_eq_refl c.key (receipt_body r),
      )
      (walk_from-mint_all ps (mint p c).0 total (index + 1))

count-mint_all :
    (ps : List ReceiptParams) (c : ReceiptChain)
    → ((mint_all ps c).0.count ≡ c.count + length (mint_all ps c).1)
      × (length (mint_all ps c).1 ≡ length ps)
unfolding mint_all mint
count-mint_all [] c = ground arith
count-mint_all (p ∷ ps) c = omega (arith, count-mint_all ps (mint p c).0)

key-mint_all : (ps : List ReceiptParams) (c : ReceiptChain) → (mint_all ps c).0.key ≡ c.key
unfolding mint_all mint
key-mint_all [] c = refl
key-mint_all (p ∷ ps) c = key-mint_all ps (mint p c).0

walk-mint_all :
    (ps : List ReceiptParams) (key : List ℕ)
    → walk (mint_all ps (new_chain key)).0 (mint_all ps (new_chain key)).1
      ≡ (ReceiptStatus.intact (length ps), (mint_all ps (new_chain key)).0.head)
unfolding walk
walk-mint_all ps key =
    let rs = (mint_all ps (new_chain key)).1 in
    ap (λ k. walk_from k (length rs) genesis_receipt_hash 0 rs) (key-mint_all ps (new_chain key))
    ∙ walk_from-mint_all ps (new_chain key) (length rs) 0
    ∙ ap (λ (n : ℕ). (ReceiptStatus.intact n, (mint_all ps (new_chain key)).0.head))
        (count-mint_all ps (new_chain key)).1

-- The receipts that a new chain mints verify, and verify as complete; there is one for each call.
pub verify_complete-mint_all :
    (ps : List ReceiptParams) (key : List ℕ)
    → (verify (mint_all ps (new_chain key)).0 (mint_all ps (new_chain key)).1
        ≡ ReceiptStatus.intact (length ps))
      × (verify_complete (mint_all ps (new_chain key)).0 (mint_all ps (new_chain key)).1
          ≡ ReceiptStatus.intact (length ps))
unfolding verify verify_complete
verify_complete-mint_all ps key =
    let c = (mint_all ps (new_chain key)).0 in
    let n = count-mint_all ps (new_chain key) in
    let counted = (==_iff (length ps) c.count).1 (omega (arith, n)) in
    (
      ap (λ w. w.0) (walk-mint_all ps key),
      rw (walk-mint_all ps key, counted, text_eq_refl c.head) refl,
    )

smaller_not_same : (a b : ℕ) → a < b → (a == b) ≡ false
smaller_not_same a b h = ground arith

-- When a chain minted further receipts, those before them still verify, but not as complete: the
-- status says that the end is missing.
pub verify_complete-dropped :
    (ps : List ReceiptParams) (q : ReceiptParams) (qs : List ReceiptParams) (key : List ℕ)
    → (verify (mint_all (ps ++ (q ∷ qs)) (new_chain key)).0 (mint_all ps (new_chain key)).1
        ≡ ReceiptStatus.intact (length ps))
      × (verify_complete
            (mint_all (ps ++ (q ∷ qs)) (new_chain key)).0
            (mint_all ps (new_chain key)).1
          ≡ ReceiptStatus.broken (length ps) ReceiptBreak.end_truncated)
unfolding verify verify_complete walk
verify_complete-dropped ps q qs key =
    let part = mint_all ps (new_chain key) in
    let all = (mint_all (ps ++ (q ∷ qs)) (new_chain key)).0 in
    let w =
      ap (λ k. walk_from k (length part.1) genesis_receipt_hash 0 part.1)
        (key-mint_all (ps ++ (q ∷ qs)) (new_chain key) ∙ sym (key-mint_all ps (new_chain key)))
      ∙ walk-mint_all ps key in
    let fewer =
      smaller_not_same (length ps) all.count (
        omega
          (arith, count-mint_all (ps ++ (q ∷ qs)) (new_chain key), length-append ps (q ∷ qs))) in
    (ap (λ x. x.0) w, rw (w, fewer) refl)
