-- ===== src/Receipts/Verified.antt =====
-- When receipts verify.
use crust_core.Prelude.{
  ℕ, ◌+◌, ◌≡◌, ◌↔◌, refl, sym, ap, ◌∙◌, subst, inl, inr, Bool-cases, true, List, [], ◌∷◌, length,
  arith,
}
use crust_core.Prelude.Text.{text_eq, text_eq_refl, text_eq_sound}
use crust_core.Types.Hash.{sha256, hmac_sha256, ct_eq}
use crust_core.Types.Hash.Laws.{IsBytes, ct_eq_iff}
use crust_core.Receipts.Minted.{hmac_sha256-IsDigest}
use crust_core.Receipts.Chain.{
  genesis_receipt_hash, ToolReceipt, ReceiptStatus, receipt_body, ReceiptChain, walk_from, walk,
  verify,
}

-- The receipts follow one another from a hash, each with the MAC of its body.
abbrev pub AreReceipts : List ℕ → List ℕ → List ToolReceipt → Type 0
AreReceipts key prev [] = Unit {0}
AreReceipts key prev (r ∷ rs) =
    (r.prev_receipt_hash ≡ prev)
    × (r.mac ≡ hmac_sha256 key (receipt_body r))
    × AreReceipts key (sha256 (receipt_body r)) rs

-- The MACs are 32 bytes, as their type says.
abbrev pub HaveMacs : List ToolReceipt → Type 0
HaveMacs [] = Unit {0}
HaveMacs (r ∷ rs) = (length r.mac ≡ 32) × IsBytes r.mac × HaveMacs rs

mac_iff :
    (key : List ℕ) (r : ToolReceipt)
    → length r.mac ≡ 32
    → IsBytes r.mac
    → (ct_eq (hmac_sha256 key (receipt_body r)) r.mac ≡ true)
      ↔ (hmac_sha256 key (receipt_body r) ≡ r.mac)
mac_iff key r e b =
    let d = hmac_sha256-IsDigest key (receipt_body r) in
    ct_eq_iff (hmac_sha256 key (receipt_body r)) r.mac (d.0 ∙ sym e) d.1 b

intact_eq : (a b : ℕ) → ReceiptStatus.intact a ≡ ReceiptStatus.intact b → a ≡ b
intact_eq a b e = ground arith

walk_from_sound :
    (key prev : List ℕ) (total index n : ℕ) (rs : List ToolReceipt)
    → HaveMacs rs
    → (walk_from key total prev index rs).0 ≡ ReceiptStatus.intact n
    → AreReceipts key prev rs × (total ≡ n)
unfolding walk_from
walk_from_sound key prev total index n [] m e = (tt, intact_eq total n e)
walk_from_sound key prev total index n (r ∷ rs) m e =
    elim (Bool-cases (text_eq r.prev_receipt_hash prev)) [
      | inr t ↦ ground (arith, rw t at e)
      | inl t ↦ elim (Bool-cases (ct_eq (hmac_sha256 key (receipt_body r)) r.mac)) [
        | inr u ↦ ground (arith, rw (t, u) at e)
        | inl u ↦
            let more =
              walk_from_sound key (sha256 (receipt_body r)) total (index + 1) n rs m.2
                (rw (t, u) at e) in
            (
              (text_eq_sound r.prev_receipt_hash prev t, sym ((mac_iff key r m.0 m.1).0 u), more.0),
              more.1,
            )
      ]
    ]

walk_from_complete :
    (key prev : List ℕ) (total index : ℕ) (rs : List ToolReceipt)
    → HaveMacs rs
    → AreReceipts key prev rs
    → (walk_from key total prev index rs).0 ≡ ReceiptStatus.intact total
unfolding walk_from
walk_from_complete key prev total index [] m h = refl
walk_from_complete key prev total index (r ∷ rs) m h =
    rw
      (
        subst (λ x. text_eq r.prev_receipt_hash x ≡ true) h.0 (text_eq_refl r.prev_receipt_hash),
        (mac_iff key r m.0 m.1).1 (sym h.1),
      )
      (walk_from_complete key (sha256 (receipt_body r)) total (index + 1) rs m.2 h.2)

-- Receipts verify exactly when each names the digest of the one before (the genesis hash at first)
-- and carries the MAC of its body under the chain's key. The count is their number. The MACs are
-- taken to be 32 bytes.
pub verify-AreReceipts :
    (c : ReceiptChain) (rs : List ToolReceipt) (n : ℕ)
    → HaveMacs rs
    → (verify c rs ≡ ReceiptStatus.intact n)
      ↔ (AreReceipts c.key genesis_receipt_hash rs × (length rs ≡ n))
unfolding verify walk
verify-AreReceipts c rs n m = (
  λ e. walk_from_sound c.key genesis_receipt_hash (length rs) 0 n rs m e,
  λ (h, e).
      walk_from_complete c.key genesis_receipt_hash (length rs) 0 rs m h
      ∙ ap ReceiptStatus.intact e,
)
