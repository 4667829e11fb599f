-- ===== src/Types/Hash/Laws.antt =====
-- Digests have 32 bytes; `ct_eq` decides equality; hexadecimal text decodes to what it encodes.
use Prim.Native.Nat.{bit_xor, bit_or}
use crust_core.Prelude.{
  ℕ, zero, suc, ◌≡◌, ◌↔◌, refl, ap, some, ◌+◌, ◌-◌, ◌*◌, ◌/◌, ◌%◌, List, [], ◌∷◌, length, arith,
  All, ◌<◌, Bool, true, not, if◌then◌else◌, ltb, leb, ◌&&◌, ◌||◌, ◌==◌,
}
use crust_core.Types.Hash.{
  at, differ, ct_eq, hex_val, hex_pairs, hex32_decode, block_words, extend, reverse_onto, rounds,
  compress, drop, hash_blocks, zeros, padded, digest, sha256,
}

pub length-sha256 : (msg : List ℕ) → length (sha256 msg) ≡ 32
unfolding sha256 digest
length-sha256 msg = refl

-- The digest of "abc" (FIPS 180-4).
sha256_abc :
    sha256 (97 ∷ 98 ∷ 99 ∷ [])
    ≡ 186 ∷ 120 ∷ 22 ∷ 191 ∷ 143 ∷ 1 ∷ 207 ∷ 234 ∷ 65 ∷ 65 ∷ 64 ∷ 222 ∷ 93 ∷ 174 ∷ 34 ∷ 35 ∷ 176 ∷ 3
      ∷ 97 ∷ 163 ∷ 150 ∷ 23 ∷ 122 ∷ 156 ∷ 180 ∷ 16 ∷ 255 ∷ 97 ∷ 242 ∷ 0 ∷ 21 ∷ 173 ∷ []
unfolding sha256 digest at block_words extend reverse_onto rounds compress drop hash_blocks zeros
    padded
sha256_abc = refl

-- A digest is a list of bytes.
pub sha256-IsBytes : (msg : List ℕ) → All (λ b. b < 256) (sha256 msg)
unfolding sha256 digest
sha256-IsBytes msg = omega arith

-- The test passes for all pairs of numbers below `m` and `n`.
every : ℕ → (ℕ → Bool) → Bool
every zero p = true
every (suc n) p = p n && every n p

every_sound : (n : ℕ) (p : ℕ → Bool) (x : ℕ) → every n p ≡ true → x < n → p x ≡ true
unfolding every
every_sound zero p x h lt = absurd (omega arith)
every_sound (suc n) p x h lt = ground (arith, every_sound n p x)

-- On bytes, `^` is zero exactly on equal ones, and `|` exactly on zeros.
abbrev xor_test : ℕ → ℕ → Bool
xor_test x y = if bit_xor x y == 0 then x == y else not (x == y) && ltb (bit_xor x y) 256

abbrev or_test : ℕ → ℕ → Bool
or_test x y =
    if bit_or x y == 0 then x == 0 && y == 0 else (leb 1 x || leb 1 y) && ltb (bit_or x y) 256

abbrev pairs : (ℕ → ℕ → Bool) → Bool
pairs t = every 256 (λ x. every 256 (t x))

xor_table : pairs xor_test ≡ true
unfolding every
xor_table = refl

or_table : pairs or_test ≡ true
unfolding every
or_table = refl

pair_sound : (t : ℕ → ℕ → Bool) (x y : ℕ) → pairs t ≡ true → x < 256 → y < 256 → t x y ≡ true
pair_sound t x y h hx hy =
    every_sound 256 (t x) y (every_sound 256 (λ z. every 256 (t z)) x h hx) hy

xor_byte : (x y : ℕ) → x < 256 → y < 256 → ((bit_xor x y ≡ 0) ↔ (x ≡ y)) × (bit_xor x y < 256)
xor_byte x y hx hy = ground (arith, pair_sound xor_test x y xor_table hx hy)

or_byte :
    (x y : ℕ) → x < 256 → y < 256 → ((bit_or x y ≡ 0) ↔ ((x ≡ 0) × (y ≡ 0))) × (bit_or x y < 256)
or_byte x y hx hy = ground (arith, pair_sound or_test x y or_table hx hy)

abbrev pub IsBytes : List ℕ → Type 0
IsBytes bs = All (λ b. b < 256) bs

differ_iff :
    (a b : List ℕ) (d : ℕ)
    → d < 256
    → length a ≡ length b
    → IsBytes a
    → IsBytes b
    → (differ a b d ≡ 0) ↔ ((d ≡ 0) × (a ≡ b))
unfolding differ
differ_iff [] [] d hd e ha hb = (λ h. (h, refl), λ h. h.0)
differ_iff [] (y ∷ ys) d hd e ha hb = absurd (omega arith)
differ_iff (x ∷ xs) [] d hd e ha hb = absurd (omega arith)
differ_iff (x ∷ xs) (y ∷ ys) d hd e ha hb =
    let t = xor_byte x y ha.0 hb.0 in
    let o = or_byte d (bit_xor x y) hd t.1 in
    let r = differ_iff xs ys (bit_or d (bit_xor x y)) o.1 (omega arith) ha.1 hb.1 in ground arith

-- On byte lists of equal length, the comparison answers true exactly when they are equal.
pub ct_eq_iff :
    (a b : List ℕ) → length a ≡ length b → IsBytes a → IsBytes b → (ct_eq a b ≡ true) ↔ (a ≡ b)
unfolding ct_eq
ct_eq_iff a b e ha hb = let r = differ_iff a b 0 (omega arith) e ha hb in ground arith

-- `{b:02x}`, as `hex_into` of crates/crustcore-eventlog/src/lib.rs writes a byte
abbrev pub hex_digit : ℕ → ℕ
hex_digit n = if ltb n 10 then b'0' + n else b'a' + (n - 10)

unfoldable pub hex_into : List ℕ → List ℕ
hex_into [] = []
hex_into (b ∷ bs) = hex_digit (b / 16) ∷ hex_digit (b % 16) ∷ hex_into bs

hex_val-hex_digit : (n : ℕ) → n < 16 → hex_val (hex_digit n) ≡ some n
unfolding hex_val
hex_val-hex_digit n h = ground arith

length-hex_into : (bs : List ℕ) → length (hex_into bs) ≡ 2 * length bs
unfolding hex_into
length-hex_into [] = omega arith
length-hex_into (b ∷ bs) = omega (arith, length-hex_into bs)

hex_pairs-hex_into : (bs : List ℕ) → IsBytes bs → hex_pairs (hex_into bs) ≡ some bs
unfolding hex_pairs hex_into
hex_pairs-hex_into [] h = refl
hex_pairs-hex_into (b ∷ bs) h =
    rw
      (
        hex_val-hex_digit (b / 16) (omega arith),
        hex_val-hex_digit (b % 16) (omega arith),
        hex_pairs-hex_into bs h.1,
      )
      (ap (λ (x : ℕ). some (x ∷ bs)) (omega arith))

-- The text that is written for a digest of 32 bytes decodes to the digest.
pub hex32_decode-hex_into :
    (bs : List ℕ) → length bs ≡ 32 → IsBytes bs → hex32_decode (hex_into bs) ≡ some bs
unfolding hex32_decode
hex32_decode-hex_into bs e h = ground (arith, length-hex_into bs, hex_pairs-hex_into bs h)
