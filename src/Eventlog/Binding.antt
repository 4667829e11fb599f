-- ===== src/Eventlog/Binding.antt =====
-- The head hash binds the whole log: what two logs that verify up to one head can differ in.
use crust_core.Prelude.{
  ℕ, ◌≡◌, ◌≢◌, refl, sym, ap, ◌∙◌, subst, ◌⊎◌, inl, inr, Bool-cases, Option, none, some, List, [],
  ◌∷◌, ◌++◌, arith,
}
use mathlib.Core.List.{append_assoc, append-nil}
use crust_core.Prelude.Text.{text_eq, text_eq_sound, text_eq_refl}
use crust_core.Types.Hash.{sha256}
use crust_core.Eventlog.Parser.{Result, ok}
use crust_core.Eventlog.Frame.{Body, Decoded, decode_body}
use crust_core.Eventlog.Log.{
  genesis_prev_hash, ChainStatus, EventLog, walk, last_hash, verify_to_head, to_head,
}
use crust_core.Eventlog.Sound.{body_of, IsChain}
use crust_core.Eventlog.Verified.{walked, accepted}

-- The frames of a log, the last one first, each as its bytes without its hash.
abbrev pub bytes_of : List (List ℕ) → List ℕ
bytes_of [] = []
bytes_of (b ∷ bs) = bytes_of bs ++ (b ++ sha256 b)

abbrev pub head_of : List (List ℕ) → List ℕ
head_of [] = genesis_prev_hash
head_of (b ∷ bs) = sha256 b

-- Each frame names the hash of the one before.
abbrev pub AreBodies : List (List ℕ) → Type 0
AreBodies [] = Unit {0}
AreBodies (b ∷ bs) =
    ((c : Body) × ((t : List ℕ) → decode_body (b ++ t) ≡ ok (c, t)) × (c.prev_hash ≡ head_of bs))
    × AreBodies bs

-- The bytes hold the frame with this body: the body and its digest.
abbrev pub Holds : List ℕ → List ℕ → Type 0
Holds bytes a =
    (before : List ℕ) × (after : List ℕ) × (bytes ≡ before ++ ((a ++ sha256 a) ++ after))

-- Frames of the two logs with different bytes and one digest, or a frame of either whose digest is
-- the genesis hash.
abbrev pub Forgery : List ℕ → List ℕ → Type 0
Forgery bytes other =
    ((a : List ℕ) × (b : List ℕ) × (a ≢ b)
      × (sha256 a ≡ sha256 b)
      × (Holds bytes a)
      × (Holds other b))
    ⊎ ((a : List ℕ) × (sha256 a ≡ genesis_prev_hash) × (Holds bytes a ⊎ Holds other a))

Holds-last : (x : List ℕ) (xs : List (List ℕ)) → Holds (bytes_of (x ∷ xs)) x
Holds-last x xs = (bytes_of xs, [], ap (λ y. bytes_of xs ++ y) (sym (append-nil (x ++ sha256 x))))

Holds-append : (bytes more a : List ℕ) → Holds bytes a → Holds (bytes ++ more) a
Holds-append bytes more a (before, after, e) = (
  before,
  after ++ more,
  ap (λ x. x ++ more) e
      ∙ append_assoc before ((a ++ sha256 a) ++ after) more
      ∙ ap (λ x. before ++ x) (append_assoc (a ++ sha256 a) after more),
)

Forgery-append : (xs more ys more' : List ℕ) → Forgery xs ys → Forgery (xs ++ more) (ys ++ more')
Forgery-append xs more ys more' (inl (a, b, n, e, h, k)) =
    inl (a, b, n, e, Holds-append xs more a h, Holds-append ys more' b k)
Forgery-append xs more ys more' (inr (a, e, inl h)) = inr (a, e, inl (Holds-append xs more a h))
Forgery-append xs more ys more' (inr (a, e, inr h)) = inr (a, e, inr (Holds-append ys more' a h))

same_or_not : (a b : List ℕ) → (a ≡ b) ⊎ (a ≢ b)
same_or_not a b = elim (Bool-cases (text_eq a b)) [
  | inl e ↦ inl (text_eq_sound a b e)
  | inr e ↦ inr (λ q. ground (arith, text_eq_refl a, rw q at e))
]

ok_front :
    (c d : Body) (t : List ℕ) → ◌≡◌ {A = Result (Body × List ℕ)} (ok (c, t)) (ok (d, t)) → c ≡ d
ok_front c d t e = ground arith

-- Equal bodies name the same hash.
prev_eq :
    (c d : Body) (x y : List ℕ)
    → x ≡ y
    → decode_body (x ++ []) ≡ ok (c, [])
    → decode_body (y ++ []) ≡ ok (d, [])
    → c.prev_hash ≡ d.prev_hash
prev_eq c d x y s h k =
    ap (λ b. b.prev_hash) (ok_front c d [] (sym h ∙ ap (λ b. decode_body (b ++ [])) s ∙ k))

cons_eq :
    (x y : List ℕ) (xs ys : List (List ℕ))
    → x ≡ y
    → xs ≡ ys
    → ◌≡◌ {A = List (List ℕ)} (x ∷ xs) (y ∷ ys)
cons_eq x y xs ys p q = cc

bodies_eq :
    (xs ys : List (List ℕ))
    → AreBodies xs
    → AreBodies ys
    → head_of xs ≡ head_of ys
    → (xs ≡ ys) ⊎ Forgery (bytes_of xs) (bytes_of ys)
bodies_eq [] [] p q e = inl refl
bodies_eq [] (y ∷ ys) p q e = inr (inr (y, sym e, inr (Holds-last y ys)))
bodies_eq (x ∷ xs) [] p q e = inr (inr (x, e, inl (Holds-last x xs)))
bodies_eq (x ∷ xs) (y ∷ ys) ((c, hc, ec), p) ((d, hd, ed), q) e = elim (same_or_not x y) [
  | inr n ↦ inr (inl (x, y, n, e, Holds-last x xs, Holds-last y ys))
  | inl s ↦ elim (bodies_eq xs ys p q (sym ec ∙ prev_eq c d x y s (hc []) (hd []) ∙ ed)) [
    | inl r ↦ inl (cons_eq x y xs ys s r)
    | inr f ↦ inr (Forgery-append (bytes_of xs) (x ++ sha256 x) (bytes_of ys) (y ++ sha256 y) f)
  ]
]

-- The bodies of a log that ends in `head`.
abbrev EndsIn : List ℕ → List ℕ → Type 0
EndsIn bytes head =
    (xs : List (List ℕ)) × (AreBodies xs) × (bytes_of xs ≡ bytes) × (head_of xs ≡ head)

from_chain :
    (ds : List Decoded) (bytes done prev : List ℕ) (last : Option ℕ)
    → IsChain prev last bytes ds
    → EndsIn done prev
    → EndsIn (done ++ bytes) (last_hash prev ds)
unfolding last_hash
from_chain [] bytes done prev last c (xs, a, e, h) =
    (xs, a, e ∙ sym (ap (λ x. done ++ x) c ∙ append-nil done), h)
from_chain (d ∷ ds) bytes done prev last (l, c) (xs, a, e, h) =
    let b = l.frame.body in
    let fh = d.frame.frame_hash in
    let more = from_chain ds d.rest (done ++ (b ++ fh)) fh (some d.frame.meta.seq) c (
      b ∷ xs,
      ((body_of d, l.frame.reads, l.linked ∙ sym h), a),
      rw (e, l.sealed) refl,
      l.sealed,
    ) in
    subst (λ x. EndsIn x (last_hash fh ds))
      (append_assoc done (b ++ fh) d.rest
        ∙ ap (λ x. done ++ x)
            (append_assoc b fh d.rest ∙ sym (l.frame.covers ∙ ap (λ x. b ++ x) l.frame.after)))
      more

Status-head :
    (ds : List Decoded) (expected : List ℕ) (st : ChainStatus) (n : ℕ)
    → to_head expected (ds, st) ≡ ChainStatus.intact n
    → (st ≡ ChainStatus.intact n) × (last_hash genesis_prev_hash ds ≡ expected)
Status-head ds expected (ChainStatus.intact m) n e =
    elim (Bool-cases (text_eq (last_hash genesis_prev_hash ds) expected)) [
      | inl t ↦ (rw t at e, text_eq_sound (last_hash genesis_prev_hash ds) expected t)
      | inr t ↦ absurd (ground (arith, rw t at e))
    ]
Status-head ds expected (ChainStatus.broken m r) n e = ground arith
Status-head ds expected (ChainStatus.unfinished) n e = ground arith

from_verified :
    (log : EventLog) (head : List ℕ) (n : ℕ)
    → verify_to_head head log ≡ ChainStatus.intact n
    → EndsIn log.bytes head
unfolding verify_to_head
from_verified log head n e =
    let st = Status-head (walk log).0 head (walk log).1 n e in
    let c = accepted log.bytes (walk log) n (walked log) st.0 in
    subst (EndsIn log.bytes) st.1
      (from_chain (walk log).0 log.bytes [] genesis_prev_hash none c.0 ([], tt, refl, refl))

-- Two logs that both verify up to the same head hold the same bytes; otherwise they hold frames with
-- different bytes and the same SHA-256 digest, or one of them holds a frame whose digest is the
-- genesis hash.
pub verify_to_head-binds :
    (log other : EventLog) (head : List ℕ) (n m : ℕ)
    → verify_to_head head log ≡ ChainStatus.intact n
    → verify_to_head head other ≡ ChainStatus.intact m
    → (log.bytes ≡ other.bytes) ⊎ Forgery log.bytes other.bytes
verify_to_head-binds log other head n m e q =
    let (xs, a, eb, eh) = from_verified log head n e in
    let (ys, b, fb, fh) = from_verified other head m q in
    elim (bodies_eq xs ys a b (eh ∙ sym fh)) [
      | inl s ↦ inl (sym eb ∙ ap bytes_of s ∙ fb)
      | inr f ↦ inr (rw (eb, fb) at f)
    ]
