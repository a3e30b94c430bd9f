-- ===== src/Wire/VarintRead.antt =====
-- Varints: the reading loop, on what the writing loop wrote.
use Prim.Native.Nat.{bit_or}
use halborn.Prelude.{
  ℕ, zero, suc, ◌+◌, ◌*◌, ◌/◌, ◌%◌, ◌^◌, ◌≤◌, ◌<◌, ◌≡◌, arith, Bytes, ◌∷◌, ◌++◌, length,
}
use halborn.Prelude.Bits.{bit_or_disjoint}
use halborn.Wire.Result.{ok}
use halborn.Wire.Reader.{Cursor, read_loop, read_varint}
use halborn.Wire.Writer.{varint_loop}
use native.Mathlib.Decide.{dec_lt}
use native.Mathlib.Nat.{mod-eq_of_lt}
use native.Mathlib.Numerals.{towards_suc}
use halborn.Wire.Varint.{varint_loop_short, varint_loop_more}

-- One round of the reading loop on a byte `b` adds its group of seven bits.
add_group :
    (width acc b shift : ℕ)
    → acc < 2 ^ shift
    → b % 128 * 2 ^ shift < 2 ^ width
    → bit_or acc (b % 128 * 2 ^ shift % 2 ^ width) ≡ acc + b % 128 * 2 ^ shift
add_group width acc b shift h fits =
    let whole : b % 128 * 2 ^ shift % 2 ^ width ≡ b % 128 * 2 ^ shift = mod-eq_of_lt fits in
    rw whole (bit_or_disjoint shift acc (b % 128) h)

pow_group : (shift : ℕ) → 2 ^ (shift + 7) ≡ 2 ^ shift * 128
pow_group shift = simp towards_suc (omega arith)

join_groups : (high low unit : ℕ) → low * unit + high * (unit * 128) ≡ (high * 128 + low) * unit
join_groups high low unit = grind arith

-- A number at bit `shift` is its last seven bits there and the others at the next group.
last_group : (shift v : ℕ) → v % 128 * 2 ^ shift + v / 128 * 2 ^ (shift + 7) ≡ v * 2 ^ shift
last_group shift v =
    let whole : v / 128 * 128 + v % 128 ≡ v = omega arith in
    rw (pow_group shift, join_groups (v / 128) (v % 128) (2 ^ shift), whole)

abbrev pub after : ℕ → Bytes → Cursor
after idx rest = record { idx = idx; rest = rest }

read_last :
    (width w idx acc shift : ℕ) (rest : Bytes)
    → w < 128
    → shift ≤ 63
    → acc < 2 ^ shift
    → acc + w * 2 ^ shift < 2 ^ width
    → read_loop width (w ∷ rest) idx acc shift ≡ ok (acc + w * 2 ^ shift, after (idx + 1) rest)
unfolding read_loop
read_last width w idx acc shift rest hw hs ha fits =
    let same : w % 128 ≡ w = omega arith in
    ground (arith, rw same at (add_group width acc w shift ha), same)

read_inner :
    (width g idx acc shift : ℕ) (rest : Bytes)
    → g < 128
    → shift ≤ 63
    → acc < 2 ^ shift
    → acc + g * 2 ^ shift < 2 ^ width
    → read_loop width ((g + 128) ∷ rest) idx acc shift
      ≡ read_loop width rest (idx + 1) (acc + g * 2 ^ shift) (shift + 7)
unfolding read_loop
read_inner width g idx acc shift rest hg hs ha fits =
    let same : (g + 128) % 128 ≡ g = omega arith in
    ground (arith, rw same at (add_group width acc (g + 128) shift ha), same)

product_le : (g m : ℕ) → g < 128 → g * m + m ≤ 128 * m
product_le g m h = grind arith

-- The room that the groups read so far leave.
room_for_group : (acc g shift : ℕ) → acc < 2 ^ shift → acc + g % 128 * 2 ^ shift < 2 ^ (shift + 7)
room_for_group acc g shift h =
    rw (pow_group shift) (grind (arith, product_le (g % 128) (2 ^ shift)))

read_loop-varint_loop :
    (width k w idx acc shift : ℕ) (rest : Bytes)
    → w < 128 ^ suc k
    → shift + 7 * k ≤ 63
    → acc < 2 ^ shift
    → acc + w * 2 ^ shift < 2 ^ width
    → read_loop width (varint_loop k w ++ rest) idx acc shift
      ≡ ok (acc + w * 2 ^ shift, after (idx + length (varint_loop k w)) rest)
read_loop-varint_loop width zero w idx acc shift rest hw hs ha fits =
    rw (varint_loop_short 0 w (omega arith))
      (read_last width w idx acc shift rest (omega arith) (omega arith) ha fits)
read_loop-varint_loop width (suc k) w idx acc shift rest hw hs ha fits = elim (dec_lt w 128) [
  | yes short ↦
      rw (varint_loop_short (suc k) w short)
        (read_last width w idx acc shift rest short (omega arith) ha fits)
  | no long ↦
      let split = last_group shift w in
      rw
        (
          varint_loop_more k w (omega arith),
          read_inner width (w % 128) idx acc shift (varint_loop k (w / 128) ++ rest) (omega arith)
              (omega arith) ha (omega arith),
          read_loop-varint_loop width k (w / 128) (idx + 1) (acc + w % 128 * 2 ^ shift) (shift + 7)
              rest (omega arith) (omega arith) (room_for_group acc w shift ha) (omega arith),
        )
        (ground arith)
]

-- The reading loop of a varint gets back a uint64 of the width that is read from what the writing
-- loop wrote, and stops behind it.
pub read_varint-varint_loop :
    (width v idx : ℕ) (rest : Bytes)
    → v < 2 ^ width
    → v < 2 ^ 64
    → read_varint width (after idx (varint_loop 9 v ++ rest))
      ≡ ok (v, after (idx + length (varint_loop 9 v)) rest)
unfolding read_varint
read_varint-varint_loop width v idx rest h u64 =
    rw
      (read_loop-varint_loop width 9 v idx 0 0 rest (omega arith) (omega arith) (omega arith)
        (omega arith))
      (ground arith)
