-- ===== src/Types/Hash.antt =====
-- SHA-256, HMAC-SHA-256 and the decoding of digests (crates/crustcore-types/src/hash.rs). A u32 is
-- a number below 2 ^ 32, and a digest a list of 32 bytes.
pub mod Laws
use Prim.Native.Nat.{bit_and, bit_or, bit_xor}
use crust_core.Prelude.{
  ℕ, zero, suc, ◌+◌, ◌-◌, ◌*◌, ◌/◌, ◌%◌, ◌^◌, ◌==◌, ltb, leb, if◌then◌else◌, ◌&&◌, Bool, Option,
  none, some, List, [], ◌∷◌, ◌++◌, length, take,
}

-- The eight words of a hash state.
pub record Words : Type 0 where
  pub a : ℕ
  pub b : ℕ
  pub c : ℕ
  pub d : ℕ
  pub e : ℕ
  pub f : ℕ
  pub g : ℕ
  pub hh : ℕ

-- `H0`
abbrev pub initial : Words
initial = record {
  a = 0x6a09_e667;
  b = 0xbb67_ae85;
  c = 0x3c6e_f372;
  d = 0xa54f_f53a;
  e = 0x510e_527f;
  f = 0x9b05_688c;
  g = 0x1f83_d9ab;
  hh = 0x5be0_cd19;
}

-- `K`
abbrev pub round_constants : List ℕ
round_constants =
    0x428a_2f98 ∷ 0x7137_4491 ∷ 0xb5c0_fbcf ∷ 0xe9b5_dba5 ∷ 0x3956_c25b ∷ 0x59f1_11f1 ∷ 0x923f_82a4
    ∷ 0xab1c_5ed5 ∷ 0xd807_aa98 ∷ 0x1283_5b01 ∷ 0x2431_85be ∷ 0x550c_7dc3 ∷ 0x72be_5d74
    ∷ 0x80de_b1fe ∷ 0x9bdc_06a7 ∷ 0xc19b_f174 ∷ 0xe49b_69c1 ∷ 0xefbe_4786 ∷ 0x0fc1_9dc6
    ∷ 0x240c_a1cc ∷ 0x2de9_2c6f ∷ 0x4a74_84aa ∷ 0x5cb0_a9dc ∷ 0x76f9_88da ∷ 0x983e_5152
    ∷ 0xa831_c66d ∷ 0xb003_27c8 ∷ 0xbf59_7fc7 ∷ 0xc6e0_0bf3 ∷ 0xd5a7_9147 ∷ 0x06ca_6351
    ∷ 0x1429_2967 ∷ 0x27b7_0a85 ∷ 0x2e1b_2138 ∷ 0x4d2c_6dfc ∷ 0x5338_0d13 ∷ 0x650a_7354
    ∷ 0x766a_0abb ∷ 0x81c2_c92e ∷ 0x9272_2c85 ∷ 0xa2bf_e8a1 ∷ 0xa81a_664b ∷ 0xc24b_8b70
    ∷ 0xc76c_51a3 ∷ 0xd192_e819 ∷ 0xd699_0624 ∷ 0xf40e_3585 ∷ 0x106a_a070 ∷ 0x19a4_c116
    ∷ 0x1e37_6c08 ∷ 0x2748_774c ∷ 0x34b0_bcb5 ∷ 0x391c_0cb3 ∷ 0x4ed8_aa4a ∷ 0x5b9c_ca4f
    ∷ 0x682e_6ff3 ∷ 0x748f_82ee ∷ 0x78a5_636f ∷ 0x84c8_7814 ∷ 0x8cc7_0208 ∷ 0x90be_fffa
    ∷ 0xa450_6ceb ∷ 0xbef9_a3f7 ∷ 0xc671_78f2 ∷ []

-- `u32::wrapping_add`
abbrev wrapping_add : ℕ → ℕ → ℕ
wrapping_add x y = (x + y) % 4294967296

-- `u32::rotate_right`, with 2 ^ n and 2 ^ (32 - n) at hand
abbrev rotate_right : ℕ → ℕ → ℕ
rotate_right x n = x / 2 ^ n + x % 2 ^ n * 2 ^ (32 - n)

abbrev xor3 : ℕ → ℕ → ℕ → ℕ
xor3 x y z = bit_xor (bit_xor x y) z

-- `!x`
abbrev complement : ℕ → ℕ
complement x = 4294967295 - x

-- `xs[i]`, of an index that the source keeps in range
unfoldable pub at : List ℕ → ℕ → ℕ
at [] i = 0
at (x ∷ xs) zero = x
at (x ∷ xs) (suc i) = at xs i

-- `u32::from_be_bytes` of the first `n` words of a block, the last word first.
unfoldable pub block_words : ℕ → List ℕ → List ℕ → List ℕ
block_words (suc n) (p ∷ q ∷ r ∷ s ∷ rest) acc =
    block_words n rest ((((p * 256 + q) * 256 + r) * 256 + s) ∷ acc)
block_words _ _ acc = acc

-- The next word of the schedule. The words so far are held with the last one first, so `w[i - k]`
-- is the one at `k - 1`.
abbrev next_word : List ℕ → ℕ
next_word w =
    let x = at w 14 in
    let y = at w 1 in
    let s0 = xor3 (rotate_right x 7) (rotate_right x 18) (x / 2 ^ 3) in
    let s1 = xor3 (rotate_right y 17) (rotate_right y 19) (y / 2 ^ 10) in
    wrapping_add (wrapping_add (wrapping_add (at w 15) s0) (at w 6)) s1

unfoldable pub extend : ℕ → List ℕ → List ℕ
extend zero w = w
extend (suc n) w = extend n (next_word w ∷ w)

unfoldable pub reverse_onto : List ℕ → List ℕ → List ℕ
reverse_onto [] acc = acc
reverse_onto (x ∷ xs) acc = reverse_onto xs (x ∷ acc)

-- The body of the round loop.
abbrev round : ℕ → ℕ → Words → Words
round k w s =
    let s1 = xor3 (rotate_right s.e 6) (rotate_right s.e 11) (rotate_right s.e 25) in
    let ch = bit_xor (bit_and s.e s.f) (bit_and (complement s.e) s.g) in
    let t1 = wrapping_add (wrapping_add (wrapping_add (wrapping_add s.hh s1) ch) k) w in
    let s0 = xor3 (rotate_right s.a 2) (rotate_right s.a 13) (rotate_right s.a 22) in
    let maj = xor3 (bit_and s.a s.b) (bit_and s.a s.c) (bit_and s.b s.c) in
    let t2 = wrapping_add s0 maj in
    record {
      a = wrapping_add t1 t2;
      b = s.a;
      c = s.b;
      d = s.c;
      e = wrapping_add s.d t1;
      f = s.e;
      g = s.f;
      hh = s.g;
    }

unfoldable pub rounds : List ℕ → List ℕ → Words → Words
rounds (k ∷ ks) (w ∷ ws) s = rounds ks ws (round k w s)
rounds _ _ s = s

abbrev add_words : Words → Words → Words
add_words s t = record {
  a = wrapping_add s.a t.a;
  b = wrapping_add s.b t.b;
  c = wrapping_add s.c t.c;
  d = wrapping_add s.d t.d;
  e = wrapping_add s.e t.e;
  f = wrapping_add s.f t.f;
  g = wrapping_add s.g t.g;
  hh = wrapping_add s.hh t.hh;
}

-- The work on one block.
unfoldable pub compress : List ℕ → Words → Words
compress block s =
    add_words s (rounds round_constants (reverse_onto (extend 48 (block_words 16 block [])) []) s)

unfoldable pub drop : ℕ → List ℕ → List ℕ
drop zero xs = xs
drop (suc n) [] = []
drop (suc n) (x ∷ xs) = drop n xs

-- The loop over `chunks_exact(64)`, for so many blocks.
unfoldable pub hash_blocks : ℕ → List ℕ → Words → Words
hash_blocks zero msg s = s
hash_blocks (suc n) msg s = hash_blocks n (drop 64 msg) (compress msg s)

unfoldable pub zeros : ℕ → List ℕ
zeros zero = []
zeros (suc n) = 0 ∷ zeros n

-- The `while` that pads with zeros up to 56 modulo 64 pushes so many.
abbrev pad_length : ℕ → ℕ
pad_length n = (119 - n % 64) % 64

abbrev be32 : ℕ → List ℕ → List ℕ
be32 w rest = w / 16777216 % 256 ∷ w / 65536 % 256 ∷ w / 256 % 256 ∷ w % 256 ∷ rest

-- The message with its padding and its bit length.
unfoldable pub padded : List ℕ → List ℕ
padded msg =
    let bits = length msg * 8 % 2 ^ 64 in
    msg
    ++ (0x80 ∷ zeros (pad_length (length msg)) ++ be32 (bits / 2 ^ 32) (be32 (bits % 2 ^ 32) []))

unfoldable pub digest : Words → List ℕ
digest s = be32 s.a (be32 s.b (be32 s.c (be32 s.d (be32 s.e (be32 s.f (be32 s.g (be32 s.hh [])))))))

-- `sha256`
unfoldable pub sha256 : List ℕ → List ℕ
sha256 msg = let m = padded msg in digest (hash_blocks (length m / 64) m initial)

-- The key of `hmac_sha256`, filled up to a block.
unfoldable pub block_key : List ℕ → List ℕ
block_key key =
    if ltb 64 (length key) then sha256 key ++ zeros 32 else key ++ zeros (64 - length key)

unfoldable pub xor_each : ℕ → List ℕ → List ℕ
xor_each m [] = []
xor_each m (k ∷ ks) = bit_xor m k ∷ xor_each m ks

-- `hmac_sha256`
unfoldable pub hmac_sha256 : List ℕ → List ℕ → List ℕ
hmac_sha256 key msg =
    let k = block_key key in sha256 (xor_each 0x5c k ++ sha256 (xor_each 0x36 k ++ msg))

-- The loop of `ct_eq`, which visits every byte.
unfoldable pub differ : List ℕ → List ℕ → ℕ → ℕ
differ (x ∷ xs) (y ∷ ys) diff = differ xs ys (bit_or diff (bit_xor x y))
differ _ _ diff = diff

-- `ct_eq`
unfoldable pub ct_eq : List ℕ → List ℕ → Bool
ct_eq a b = differ a b 0 == 0

-- `hex_val`
unfoldable pub hex_val : ℕ → Option ℕ
hex_val c =
    if leb b'0' c && leb c b'9'
    then some (c - b'0')
    else if leb b'a' c && leb c b'f'
    then some (c - b'a' + 10)
    else if leb b'A' c && leb c b'F'
    then some (c - b'A' + 10)
    else none

abbrev hex_byte : Option ℕ → Option ℕ → Option (List ℕ) → Option (List ℕ)
hex_byte (some hi) (some lo) (some rest) = some ((hi * 16 + lo) ∷ rest)
hex_byte _ _ _ = none

-- The loop of `hex32_decode` over pairs.
unfoldable pub hex_pairs : List ℕ → Option (List ℕ)
hex_pairs (x ∷ y ∷ rest) = hex_byte (hex_val x) (hex_val y) (hex_pairs rest)
hex_pairs _ = some []

-- `hex32_decode`
unfoldable pub hex32_decode : List ℕ → Option (List ℕ)
hex32_decode s = if length s == 64 then hex_pairs s else none
