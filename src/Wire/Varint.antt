-- ===== src/Wire/Varint.antt =====
-- Varints: the bytes that the writing loop writes, and `sov`, their number.
use Prim.Native.Nat.{bit_or}
use halborn.Prelude.{
  ℕ, zero, suc, ◌+◌, ◌*◌, ◌/◌, ◌%◌, ◌^◌, ◌≤◌, ◌<◌, ◌≡◌, refl, ap, ◌∙◌, arith, [], ◌∷◌, length, All,
  IsByte,
}
use halborn.Prelude.Bits.{bit_or_disjoint, bit_or-one}
use halborn.Wire.Writer.{len_loop, len64, sov, varint_loop}
use native.Mathlib.Decide.{dec_lt}

top_bit : (v : ℕ) → bit_or (v % 128) 128 ≡ v % 128 + 128
top_bit v = bit_or_disjoint 7 (v % 128) 1 (omega arith)

pub varint_loop-IsByte : (k v : ℕ) → All IsByte (varint_loop k v)
unfolding varint_loop
varint_loop-IsByte zero v = omega arith
varint_loop-IsByte (suc k) v = ground (arith, top_bit v, varint_loop-IsByte k (v / 128))

pub length-varint_loop :
    (k v : ℕ) → (1 ≤ length (varint_loop k v)) × (length (varint_loop k v) ≤ k + 1)
unfolding varint_loop
length-varint_loop zero v = omega arith
length-varint_loop (suc k) v = ground (arith, length-varint_loop k (v / 128))

-- The fuel of `len_loop` that goes with `varint_loop k`; for k = 9 it is 64.
abbrev bits : ℕ → ℕ
bits zero = 1
bits (suc k) = suc (suc (suc (suc (suc (suc (suc (bits k)))))))

abbrev capacity : ℕ → ℕ
capacity zero = 2
capacity (suc k) = 128 * capacity k

len_loop_step : (f x : ℕ) → 1 ≤ x → len_loop (suc f) x ≡ len_loop f (x / 2) + 1
unfolding len_loop
len_loop_step f x h = ground arith

len_loop-zero : (f : ℕ) → len_loop f 0 ≡ 0
unfolding len_loop
len_loop-zero zero = refl
len_loop-zero (suc f) = refl

len_loop_halves : (f x : ℕ) → len_loop (suc f) x ≤ len_loop f (x / 2) + 1
unfolding len_loop
len_loop_halves f x = ground arith

len_loop_none : (x : ℕ) → len_loop 0 x ≡ 0
unfolding len_loop
len_loop_none x = refl

-- Below 128 there are at most seven digits.
len_loop_short : (f x : ℕ) → x < 128 → len_loop (suc (suc (suc (suc (suc (suc (suc f))))))) x ≤ 7
len_loop_short f x h =
    let gone : x / 2 / 2 / 2 / 2 / 2 / 2 / 2 ≡ 0 = omega arith in
    omega (
      arith,
      len_loop_halves _ x,
      len_loop_halves _ (x / 2),
      len_loop_halves _ (x / 2 / 2),
      len_loop_halves _ (x / 2 / 2 / 2),
      len_loop_halves _ (x / 2 / 2 / 2 / 2),
      len_loop_halves _ (x / 2 / 2 / 2 / 2 / 2),
      len_loop_halves f (x / 2 / 2 / 2 / 2 / 2 / 2),
      ap (len_loop f) gone,
      len_loop-zero f,
    )

-- From 128 on the last seven digits can be dropped.
len_loop_seven :
    (f x : ℕ)
    → 128 ≤ x
    → len_loop (suc (suc (suc (suc (suc (suc (suc f))))))) x ≡ len_loop f (x / 128) + 7
len_loop_seven f x h =
    let shifted : x / 2 / 2 / 2 / 2 / 2 / 2 / 2 ≡ x / 128 = omega arith in
    omega (
      arith,
      len_loop_step _ x (omega arith),
      len_loop_step _ (x / 2) (omega arith),
      len_loop_step _ (x / 2 / 2) (omega arith),
      len_loop_step _ (x / 2 / 2 / 2) (omega arith),
      len_loop_step _ (x / 2 / 2 / 2 / 2) (omega arith),
      len_loop_step _ (x / 2 / 2 / 2 / 2 / 2) (omega arith),
      len_loop_step f (x / 2 / 2 / 2 / 2 / 2 / 2) (omega arith),
      ap (len_loop f) shifted,
    )

pub varint_loop_short : (k v : ℕ) → v < 128 → varint_loop k v ≡ v ∷ []
unfolding varint_loop
varint_loop_short zero v h = ground arith
varint_loop_short (suc k) v h = ground arith

pub varint_loop_more :
    (k v : ℕ) → 128 ≤ v → varint_loop (suc k) v ≡ (v % 128 + 128) ∷ varint_loop k (v / 128)
unfolding varint_loop
varint_loop_more k v h = ground (arith, top_bit v)

digits_bytes :
    (k x : ℕ) → 1 ≤ x → x < capacity k → (len_loop (bits k) x + 6) / 7 ≡ length (varint_loop k x)
digits_bytes zero x h p =
    rw (varint_loop_short 0 x (omega arith))
      (omega (arith, len_loop_step 0 x h, len_loop_halves 0 x, len_loop_none (x / 2)))
digits_bytes (suc k) x h p = elim (dec_lt x 128) [
  | yes short ↦
      rw (varint_loop_short (suc k) x short)
        (omega (arith, len_loop_short (bits k) x short, len_loop_step _ x h))
  | no long ↦ rw (varint_loop_more k x (omega arith)) (
      omega (
        arith,
        len_loop_seven (bits k) x (omega arith),
        digits_bytes k (x / 128) (omega arith) (omega arith),
      ))
]

-- Setting the lowest bit does not change how many bytes are written.
length-varint_or : (v : ℕ) → length (varint_loop 9 (v / 2 * 2 + 1)) ≡ length (varint_loop 9 v)
length-varint_or v = elim (dec_lt v 128) [
  | yes short ↦ rw (varint_loop_short 9 v short, varint_loop_short 9 (v / 2 * 2 + 1) (omega arith))
  | no long ↦
      let same : (v / 2 * 2 + 1) / 128 ≡ v / 128 = omega arith in
      rw
        (varint_loop_more 8 v (omega arith), varint_loop_more 8 (v / 2 * 2 + 1) (omega arith), same)
]

-- For a uint64, sov is the number of bytes that the loop of encodeVarint writes.
pub sov-length : (v : ℕ) → v < 2 ^ 64 → sov v ≡ length (varint_loop 9 v)
unfolding sov len64
sov-length v h =
    rw (bit_or-one v)
      (digits_bytes 9 (v / 2 * 2 + 1) (omega arith) (omega arith) ∙ length-varint_or v)
