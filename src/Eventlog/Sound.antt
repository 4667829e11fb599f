-- ===== src/Eventlog/Sound.antt =====
-- What the walk accepts: frames that cover the bytes, each sealed and linked to the one before.
use crust_core.Prelude.{
  ℕ, zero, suc, ◌+◌, ◌≤◌, ◌≡◌, refl, sym, ap, ◌∙◌, subst, inl, inr, Option-cases, Bool, true, false,
  not, if◌then◌else◌, Option, none, some, List, [], ◌∷◌, ◌++◌, length, length-append, take,
  take-length-append, arith,
}
use crust_core.Prelude.Text.{text_eq, text_eq_sound}
use crust_core.Prelude.Bytes.{split, append-split}
use crust_core.Types.Hash.{sha256}
use crust_core.Eventlog.Parser.{BreakReason, ok, err, read}
use crust_core.Eventlog.Frame.{Body, Decoded, decode_body, decode_at}
use crust_core.Eventlog.Local.{Result-cases, decode_body-IsLocal}
use crust_core.Eventlog.Log.{ChainStatus, frame_body, follows, check_frame, prepend, walk_from}

abbrev pub body_of : Decoded → Body
body_of d = record {
  meta = d.frame.meta;
  payload_hash = d.frame.payload_hash;
  prev_hash = d.frame.prev_hash;
  payload = d.payload;
}

-- The bytes of a decoded frame: its body, its hash and the rest.
pub record IsFrame (bytes : List ℕ) (d : Decoded) : Type 0 where
  pub body : List ℕ
  pub after : d.after_payload ≡ d.frame.frame_hash ++ d.rest
  pub hash_length : length d.frame.frame_hash ≡ 32
  pub covers : bytes ≡ body ++ d.after_payload
  pub reads : (t : List ℕ) → decode_body (body ++ t) ≡ ok (body_of d, t)

abbrev decoded_with : Body → List ℕ → List ℕ → List ℕ → Decoded
decoded_with b after fh rest = record {
  frame = record {
    meta = b.meta;
    payload_hash = b.payload_hash;
    prev_hash = b.prev_hash;
    frame_hash = fh;
  };
  payload = b.payload;
  after_payload = after;
  rest = rest;
}

ok_eq : {A : Type 0} (x y : A) → ok x ≡ ok y → x ≡ y
ok_eq x y e = ground arith

err_ok : {A : Type 0} (x : BreakReason) (a : A) → err x ≡ ok a → ⊥
err_ok x a e = ground arith

read_parts :
    (n : ℕ) (bs front rest : List ℕ)
    → read n bs ≡ ok (front, rest)
    → (front ++ rest ≡ bs) × (length front ≡ n)
read_parts n bs front rest e = elim (Option-cases (split n bs)) [
  | inl s ↦ absurd (err_ok BreakReason.truncated (front, rest) (rw s at e))
  | inr ((x, y), s) ↦
      append-split n bs front rest (s ∙ ap some (ok_eq (x, y) (front, rest) (rw s at e)))
]

decoded_with-IsFrame :
    (bytes : List ℕ) (b : Body) (after fh rest : List ℕ)
    → decode_body bytes ≡ ok (b, after)
    → read 32 after ≡ ok (fh, rest)
    → IsFrame bytes (decoded_with b after fh rest)
decoded_with-IsFrame bytes b after fh rest e s =
    let body = decode_body-IsLocal bytes b after e in
    let parts = read_parts 32 after fh rest s in
    record {
      body = body.0;
      after = sym parts.0;
      hash_length = parts.1;
      covers = body.1;
      reads = body.2;
    }

decode_at-IsFrame : (bytes : List ℕ) (d : Decoded) → decode_at bytes ≡ ok d → IsFrame bytes d
unfolding decode_at
decode_at-IsFrame bytes d h = elim (Result-cases (decode_body bytes)) [
  | inr (x, s) ↦ absurd (err_ok x d (rw s at h))
  | inl ((b, after), s) ↦ elim (Result-cases (read 32 after)) [
    | inr (x, q) ↦ absurd (err_ok x d (rw (s, q) at h))
    | inl ((fh, rest), q) ↦
        subst (IsFrame bytes) (ok_eq (decoded_with b after fh rest) d (rw (s, q) at h))
          (decoded_with-IsFrame bytes b after fh rest s q)
  ]
]

pub frame_body-IsFrame :
    (bytes : List ℕ) (d : Decoded) (f : IsFrame bytes d) → frame_body bytes d ≡ f.body
frame_body-IsFrame bytes d f = rw f.covers (
    subst (λ (n : ℕ). take n (f.body ++ d.after_payload) ≡ f.body)
      (omega (arith, length-append f.body d.after_payload))
      (take-length-append f.body d.after_payload))

guard_passed :
    (b : Bool) (reason : BreakReason) (more : Option BreakReason)
    → (if not b then some reason else more) ≡ none
    → (b ≡ true) × (more ≡ none)
guard_passed true reason more e = (refl, e)
guard_passed false reason more e = ground arith

-- What a frame that passes the checks satisfies.
check_frame-none :
    (bytes prev : List ℕ) (last : Option ℕ) (d : Decoded)
    → check_frame bytes prev last d ≡ none
    → (sha256 d.payload ≡ d.frame.payload_hash)
      × (sha256 (frame_body bytes d) ≡ d.frame.frame_hash)
      × (d.frame.prev_hash ≡ prev)
      × (follows last d.frame.meta.seq ≡ true)
unfolding check_frame
check_frame-none bytes prev last d h =
    let g1 =
      guard_passed (text_eq (sha256 d.payload) d.frame.payload_hash)
        BreakReason.payload_hash_mismatch _ h in
    let g2 =
      guard_passed (text_eq (sha256 (frame_body bytes d)) d.frame.frame_hash)
        BreakReason.frame_hash_mismatch _ g1.1 in
    let g3 = guard_passed (text_eq d.frame.prev_hash prev) BreakReason.prev_hash_mismatch _ g2.1 in
    let g4 = guard_passed (follows last d.frame.meta.seq) BreakReason.non_monotonic_seq none g3.1 in
    (
      text_eq_sound (sha256 d.payload) d.frame.payload_hash g1.0,
      text_eq_sound (sha256 (frame_body bytes d)) d.frame.frame_hash g2.0,
      text_eq_sound d.frame.prev_hash prev g3.0,
      g4.0,
    )

-- A frame that stands at the start of the bytes, after a frame with the hash `prev` and the
-- sequence number `last`.
pub record IsLinked (prev : List ℕ) (last : Option ℕ) (bytes : List ℕ) (d : Decoded) : Type 0 where
  pub frame : IsFrame bytes d
  pub payload_sealed : sha256 d.payload ≡ d.frame.payload_hash
  pub sealed : sha256 frame.body ≡ d.frame.frame_hash
  pub linked : d.frame.prev_hash ≡ prev
  pub increasing : follows last d.frame.meta.seq ≡ true

-- The frames cover the bytes, each linked to the one before.
abbrev pub IsChain : List ℕ → Option ℕ → List ℕ → List Decoded → Type 0
IsChain prev last bytes [] = bytes ≡ []
IsChain prev last bytes (d ∷ ds) =
    IsLinked prev last bytes d × IsChain d.frame.frame_hash (some d.frame.meta.seq) d.rest ds

check_frame-IsLinked :
    (bytes prev : List ℕ) (last : Option ℕ) (d : Decoded)
    → decode_at bytes ≡ ok d
    → check_frame bytes prev last d ≡ none
    → IsLinked prev last bytes d
check_frame-IsLinked bytes prev last d h c =
    let f = decode_at-IsFrame bytes d h in
    let checks = check_frame-none bytes prev last d c in
    record {
      frame = f;
      payload_sealed = checks.0;
      sealed = subst (λ x. sha256 x ≡ d.frame.frame_hash) (frame_body-IsFrame bytes d f) checks.1;
      linked = checks.2;
      increasing = checks.3;
    }

-- The walk ends in `intact`: its frames form a chain, and it counts them.
abbrev pub Accepts : List ℕ → Option ℕ → List ℕ → ℕ → List Decoded × ChainStatus → Type 0
Accepts prev last bytes index (frames, ChainStatus.intact n) =
    IsChain prev last bytes frames × (n ≡ index + length frames)
Accepts prev last bytes index (frames, ChainStatus.broken n reason) = Unit {0}
Accepts prev last bytes index (frames, ChainStatus.unfinished) = ⊥

Accepts-on_checked :
    (index : ℕ) (prev : List ℕ) (last : Option ℕ) (bytes : List ℕ) (d : Decoded)
    (w : List Decoded × ChainStatus)
    → IsLinked prev last bytes d
    → Accepts d.frame.frame_hash (some d.frame.meta.seq) d.rest (suc index) w
    → Accepts prev last bytes index (prepend d w)
Accepts-on_checked index prev last bytes d (frames, ChainStatus.intact n) l a =
    ((l, a.0), omega (arith, a.1))
Accepts-on_checked index prev last bytes d (frames, ChainStatus.broken n r) l a = tt
Accepts-on_checked index prev last bytes d (frames, ChainStatus.unfinished) l a = a

pub length-rest :
    (bytes : List ℕ) (d : Decoded) → IsFrame bytes d → length d.rest + 32 ≤ length bytes
length-rest bytes d f =
    rw (f.covers, f.after)
      (omega (
        arith,
        f.hash_length,
        length-append f.body (d.frame.frame_hash ++ d.rest),
        length-append d.frame.frame_hash d.rest,
      ))

pub walk_from-Accepts :
    (fuel : ℕ) (bytes prev : List ℕ) (index : ℕ) (last : Option ℕ)
    → length bytes ≤ fuel
    → Accepts prev last bytes index (walk_from fuel bytes prev index last)
unfolding walk_from
walk_from-Accepts fuel [] prev index last enough = (refl, omega arith)
walk_from-Accepts zero (b ∷ bs) prev index last enough = absurd (omega arith)
walk_from-Accepts (suc fuel) (b ∷ bs) prev index last enough =
    elim (Result-cases (decode_at (b ∷ bs))) [
      | inr (x, s) ↦ rw s tt
      | inl (d, s) ↦ elim (Option-cases (check_frame (b ∷ bs) prev last d)) [
        | inr (reason, c) ↦ rw (s, c) tt
        | inl c ↦
            let l = check_frame-IsLinked (b ∷ bs) prev last d s c in
            rw (s, c)
              (Accepts-on_checked index prev last (b ∷ bs) d
                (walk_from fuel d.rest d.frame.frame_hash (suc index) (some d.frame.meta.seq)) l
                (walk_from-Accepts fuel d.rest d.frame.frame_hash (suc index)
                  (some d.frame.meta.seq) (omega (arith, length-rest (b ∷ bs) d l.frame))))
      ]
    ]
