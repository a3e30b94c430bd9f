-- ===== src/Wire/Cases.antt =====
-- Reading back one field that the writers wrote: its tag, its length and its bytes.
use halborn.Prelude.{
  ℕ, suc, ◌+◌, ◌%◌, ◌<◌, ◌^◌, ◌≡◌, arith, Bytes, ◌∷◌, ◌++◌, length, length-append,
  take-append_length, drop-append_length, append_assoc, lt→leb_false, le→ltb_false,
}
use halborn.Wire.Result.{Result, WireError, ok, err}
use halborn.Wire.Reader.{
  read_varint, read_bytes, bytes_case, varint_case, skip, skip_loop, skip_field, skip_unknown,
}
use halborn.Wire.Varint.{varint_loop_short}
use halborn.Wire.VarintRead.{after, read_varint-varint_loop}
use halborn.Wire.Encoding.{varint}

pub read_varint-varint :
    (v idx : ℕ) (rest : Bytes)
    → v < 2 ^ 64
    → read_varint 64 (after idx (varint v ++ rest)) ≡ ok (v, after (idx + length (varint v)) rest)
read_varint-varint v idx rest h = read_varint-varint_loop 64 v idx rest h h

-- A tag below 128 is one byte.
pub read_tag :
    (tag idx : ℕ) (more : Bytes)
    → tag < 128
    → read_varint 64 (after idx (tag ∷ more)) ≡ ok (tag, after (idx + 1) more)
read_tag tag idx more h =
    rw (varint_loop_short 9 tag h) at (read_varint-varint tag idx more (omega arith))

pub read_bytes-field :
    (s : Bytes) (idx : ℕ) (rest : Bytes)
    → idx + length (varint (length s)) + length s < 2 ^ 63
    → read_bytes (after idx (varint (length s) ++ (s ++ rest)))
      ≡ ok (s, after (idx + length (varint (length s)) + length s) rest)
unfolding read_bytes
read_bytes-field s idx rest h =
    rw (read_varint-varint (length s) idx (s ++ rest) (omega arith))
      (ground (arith, take-append_length s rest, drop-append_length s rest, length-append s rest))

pub bytes_case-field {ℓ} :
    {M : Type ℓ} (s : Bytes) (read : Bytes → Result M) (m' : M) (idx : ℕ) (rest : Bytes)
    → idx + length (varint (length s)) + length s < 2 ^ 63
    → read s ≡ ok m'
    → bytes_case 2 read (after idx (varint (length s) ++ (s ++ rest)))
      ≡ ok (m', after (idx + length (varint (length s)) + length s) rest)
unfolding bytes_case
bytes_case-field s read m' idx rest h e = rw (read_bytes-field s idx rest h, e)

pub bytes_case-fails {ℓ} :
    {M : Type ℓ} (s : Bytes) (read : Bytes → Result M) (e : WireError) (idx : ℕ) (rest : Bytes)
    → idx + length (varint (length s)) + length s < 2 ^ 63
    → read s ≡ err e
    → bytes_case 2 read (after idx (varint (length s) ++ (s ++ rest))) ≡ err e
unfolding bytes_case
bytes_case-fails s read e idx rest h fails = rw (read_bytes-field s idx rest h, fails)

pub varint_case-field {ℓ} :
    {M : Type ℓ} (width v : ℕ) (set : ℕ → M) (idx : ℕ) (rest : Bytes)
    → v < 2 ^ width
    → v < 2 ^ 64
    → varint_case width 0 set (after idx (varint v ++ rest))
      ≡ ok (set v, after (idx + length (varint v)) rest)
unfolding varint_case
varint_case-field width v set idx rest h u64 = rw (read_varint-varint_loop width v idx rest h u64)

-- `skip` measures a length-delimited field.
pub skip-field :
    (tag : ℕ) (s rest : Bytes)
    → tag < 128
    → tag % 8 ≡ 2
    → 1 + length (varint (length s)) + length s < 2 ^ 63
    → skip (tag ∷ (varint (length s) ++ (s ++ rest)))
      ≡ ok (0 + 1 + length (varint (length s)) + length s)
unfolding skip skip_loop skip_field
skip-field tag s rest h two fits = rw (
  read_tag tag 0 (varint (length s) ++ (s ++ rest)) h,
  two,
  read_varint-varint (length s) (0 + 1) (s ++ rest) (omega arith),
  lt→leb_false (2 ^ 63) (length s) (omega arith),
  lt→leb_false (2 ^ 63) (0 + 1 + length (varint (length s)) + length s) (omega arith),
)

-- `skip_unknown` goes on behind the field.
pub skip_unknown-field {ℓ} :
    {M : Type ℓ} (tag : ℕ) (s : Bytes) (idx : ℕ) (rest : Bytes) (m : M)
    → tag < 128
    → tag % 8 ≡ 2
    → idx + 1 + length (varint (length s)) + length s < 2 ^ 63
    → skip_unknown (after idx (tag ∷ ((varint (length s) ++ s) ++ rest))) m
      ≡ ok (m, after (idx + 1 + length (varint (length s) ++ s)) rest)
unfolding skip_unknown
skip_unknown-field tag s idx rest m h two fits =
    let body = varint (length s) ++ s in
    let whole = length-append (varint (length s)) s in
    let size : 0 + 1 + length (varint (length s)) + length s ≡ suc (length body) = omega arith in
    let position : idx + suc (length body) ≡ idx + 1 + length body = omega arith in
    let measured =
      rw (← append_assoc (varint (length s)) s rest, size) at
        (skip-field tag s rest h two (omega arith)) in
    rw (
      measured,
      lt→leb_false (2 ^ 63) (suc (length body)) (omega arith),
      lt→leb_false (2 ^ 63) (idx + suc (length body)) (omega arith),
      le→ltb_false (suc (length (body ++ rest))) (suc (length body))
          (omega (arith, length-append body rest)),
      drop-append_length body rest,
      position,
    )
