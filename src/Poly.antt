-- ===== src/Poly.antt =====
-- bank_crypto_project/src/poly1305/bank_poly1305_core.cpp, with the four words of an array as a
-- record and `memcpy` between words and bytes as on a little-endian machine. The copy of the key and
-- the array `poly_key` are overwritten by the caller and not read.
pub mod Buffer
pub mod Last
use Prim.Native.Nat.{bit_or}
use blackstone.Prelude.{
  ℕ, ◌+◌, ◌*◌, ◌/◌, ◌%◌, ◌^◌, Option, none, some, List, [], ◌∷◌, ◌++◌, length, set, take, drop,
  replicate, eqb, ltb, if◌then◌else◌,
}
use blackstone.Prelude.Words.{add64}
use blackstone.Prelude.Bytes.{little_endian, byte_at}
use blackstone.Chacha.{add32}

pub record Limbs : Type 0 where
  pub w0 : ℕ
  pub w1 : ℕ
  pub w2 : ℕ
  pub w3 : ℕ

pub record Poly1305 : Type 0 where
  pub r : Limbs
  pub s : Limbs
  pub buf : List ℕ
  pub buf_len : ℕ
  pub total_len : ℕ

abbrev pub low26 : ℕ → ℕ
low26 w = w % 2 ^ 26

abbrev pub word_at : List ℕ → ℕ → ℕ
word_at bs i =
    byte_at bs i
    + byte_at bs (i + 1) * 2 ^ 8
    + byte_at bs (i + 2) * 2 ^ 16
    + byte_at bs (i + 3) * 2 ^ 24

abbrev pub load : List ℕ → Limbs
load bs = record { w0 = word_at bs 0; w1 = word_at bs 4; w2 = word_at bs 8; w3 = word_at bs 12 }

abbrev pub store : Limbs → List ℕ
store h =
    little_endian 4 h.w0 ++ little_endian 4 h.w1 ++ little_endian 4 h.w2 ++ little_endian 4 h.w3

-- The mask 0x0ffffffc clears the four highest bits and the two lowest.
abbrev pub clamp : ℕ → ℕ
clamp w = w % 2 ^ 28 / 4 * 4

unfoldable pub init : List ℕ → Poly1305
init key =
    let r = load key in
    record {
      r = record { w0 = clamp r.w0; w1 = clamp r.w1; w2 = clamp r.w2; w3 = clamp r.w3 };
      s = load (drop 16 key);
      buf = replicate 16 0;
      buf_len = 0;
      total_len = 0;
    }

abbrev pub plus : Limbs → Limbs → Limbs
plus h t = record {
  w0 = add32 h.w0 t.w0;
  w1 = add32 h.w1 t.w1;
  w2 = add32 h.w2 t.w2;
  w3 = add32 h.w3 t.w3;
}

-- The carries of 26 bits, once around.
pub carry : Limbs → Limbs
carry h =
    let h1 = add32 h.w1 (h.w0 / 2 ^ 26) in
    let h2 = add32 h.w2 (h1 / 2 ^ 26) in
    let h3 = add32 h.w3 (h2 / 2 ^ 26) in
    let h0 = add32 (low26 h.w0) (h3 / 2 ^ 26 * 5) in
    record { w0 = low26 h0; w1 = add32 (low26 h1) (h0 / 2 ^ 26); w2 = low26 h2; w3 = low26 h3 }

abbrev pub wrap64 : ℕ → ℕ
wrap64 n = n % 2 ^ 64

abbrev pub joined : ℕ → ℕ → ℕ → ℕ
joined low high place = bit_or low (low26 high * 2 ^ place) % 2 ^ 32

pub multiply : Limbs → Limbs → Limbs
multiply h r =
    let s0 = wrap64 (h.w0 * r.w0 + h.w1 * r.w3 * 5 + h.w2 * r.w2 * 5 + h.w3 * r.w1 * 5) in
    let s1 = wrap64 (h.w0 * r.w1 + h.w1 * r.w0 + h.w2 * r.w3 * 5 + h.w3 * r.w2 * 5) in
    let s2 = wrap64 (h.w0 * r.w2 + h.w1 * r.w1 + h.w2 * r.w0 + h.w3 * r.w3 * 5) in
    let s3 = wrap64 (h.w0 * r.w3 + h.w1 * r.w2 + h.w2 * r.w1 + h.w3 * r.w0) in
    record {
      w0 = low26 s0;
      w1 = joined (s0 / 2 ^ 26) s1 6;
      w2 = joined (s1 / 2 ^ 20) s2 12;
      w3 = joined (s2 / 2 ^ 14) s3 18;
    }

-- The words of `block`, the bytes past its end being 0, and the bit that marks the end: 0 but for
-- the final block.
abbrev pub block_words : List ℕ → ℕ → Limbs
block_words bytes mark =
    let t = load bytes in
    record { w0 = low26 (t.w0 + mark); w1 = low26 t.w1; w2 = low26 t.w2; w3 = low26 t.w3 }

pub add_block : List ℕ → ℕ → Poly1305 → Poly1305
unfolding carry multiply
add_block bytes mark p = record p {
  buf = store (multiply (carry (plus (load p.buf) (block_words bytes mark))) p.r);
}

-- One round of the loop of `bank_poly1305_update`.
pub put_byte : ℕ → Poly1305 → Poly1305
unfolding add_block
put_byte b p =
    let q = record p { buf = set p.buf p.buf_len b; buf_len = p.buf_len + 1 } in
    if eqb q.buf_len 16 then record (add_block q.buf 0 q) { buf_len = 0 } else q

pub feed : List ℕ → Poly1305 → Poly1305
unfolding put_byte
feed [] p = p
feed (b ∷ bs) p = feed bs (put_byte b p)

unfoldable pub update : List ℕ → Poly1305 → Poly1305
unfolding feed
update bytes p = let q = feed bytes p in record q { total_len = add64 q.total_len (length bytes) }

-- The tag. With four bytes or more in the buffer the shift of `1` is undefined, `none`.
unfoldable pub final : Poly1305 → Option (List ℕ)
unfolding add_block carry
final p =
    let n = p.buf_len in
    let q = add_block (take n p.buf) (2 ^ (n * 8)) p in
    if ltb n 4 then some (store (carry (plus (load q.buf) p.s))) else none
