-- ===== src/Wire/Reader.antt =====
-- The loops that every generated `Unmarshal` and `skip` is made of. The three .pb.go files that hold
-- stored records repeat them word for word; the lines are those of tickets.pb.go.
use Prim.Native.Nat.{bit_or}
use halborn.Prelude.{
  ℕ, zero, suc, ◌+◌, ◌*◌, ◌/◌, ◌%◌, ◌^◌, Bytes, [], ◌∷◌, length, take, drop, ltb, leb, ◌==◌, Bool,
  true, false, not, Option, none, some, if◌then◌else◌, ◌||◌,
}
use halborn.Wire.Result.{Result, ok, err, stuck, ◌>>=◌, ◌>>◌, fail_if}
use halborn.Wire.Result.{
  int_overflow, unexpected_eof, invalid_length, unexpected_end_of_group, end_group, illegal_tag,
  wrong_wire_type, illegal_wire_type, nested,
}

-- `iNdEx` and `dAtA[iNdEx:]`, so that `len(dAtA)` is `idx + length rest`.
pub record Cursor : Type 0 where
  pub idx : ℕ
  pub rest : Bytes

abbrev pub is_empty : Bytes → Bool
is_empty [] = true
is_empty (b ∷ bs) = false

abbrev pub start : Bytes → Cursor
start bs = record { idx = 0; rest = bs }

-- `iNdEx += n`; past the end nothing is left to read.
abbrev pub advance : ℕ → Cursor → Cursor
advance n c = record { idx = c.idx + n; rest = drop n c.rest }

-- The varint loop. `width` is that of the number that collects the groups of seven bits.
unfoldable pub read_loop : ℕ → Bytes → ℕ → ℕ → ℕ → Result (ℕ × Cursor)
read_loop width [] idx acc shift = if leb 64 shift then err int_overflow else err unexpected_eof
read_loop width (b ∷ bs) idx acc shift =
    let acc' = bit_or acc (b % 128 * 2 ^ shift % 2 ^ width) in
    let more = read_loop width bs (idx + 1) acc' (shift + 7) in
    if leb 64 shift
    then err int_overflow
    else (if ltb b 128 then ok (acc', record { idx = idx + 1; rest = bs }) else more)

unfoldable pub read_varint : ℕ → Cursor → Result (ℕ × Cursor)
unfolding read_loop
read_varint width c = read_loop width c.rest c.idx 0 0

-- A length and as many bytes. An `int` is negative from 2 ^ 63 on.
unfoldable pub read_bytes : Cursor → Result (Bytes × Cursor)
read_bytes c = do
  (len, c') ← read_varint 64 c
  fail_if (leb (2 ^ 63) len) invalid_length
  fail_if (leb (2 ^ 63) (c'.idx + len)) invalid_length
  fail_if (ltb (length c'.rest) len) unexpected_eof
  ok (take len c'.rest, advance len c')

unfoldable pub end_of_group : Cursor → ℕ → Result (Cursor × ℕ)
end_of_group c zero = err unexpected_end_of_group
end_of_group c (suc depth) = ok (c, depth)

-- The `switch wireType` of `skip`: where the next tag stands, and the depth of open groups.
unfoldable pub skip_field : ℕ → Cursor → ℕ → Result (Cursor × ℕ)
unfolding end_of_group
skip_field wire_type c depth =
    if wire_type == 0
    then (do (_, c') ← read_varint 64 c; ok (c', depth))
    else (if wire_type == 1
        then ok (advance 8 c, depth)
        else (if wire_type == 2
            then (do
              (len, c') ← read_varint 64 c
              fail_if (leb (2 ^ 63) len) invalid_length
              ok (advance len c', depth))
            else (if wire_type == 3
                then ok (c, depth + 1)
                else (if wire_type == 4
                    then end_of_group c depth
                    else (if wire_type == 5
                        then ok (advance 4 c, depth)
                        else err illegal_wire_type)))))

-- How many bytes the next field takes, its tag included.
unfoldable pub skip_loop : ℕ → Cursor → ℕ → Result ℕ
skip_loop zero c depth = if is_empty c.rest then err unexpected_eof else stuck
skip_loop (suc fuel) c depth = if is_empty c.rest then err unexpected_eof else (do
  (wire, c1) ← read_varint 64 c
  (c2, depth') ← skip_field (wire % 8) c1 depth
  fail_if (leb (2 ^ 63) c2.idx) invalid_length
  let more = skip_loop fuel c2 depth'
  if depth' == 0 then ok c2.idx else more)

unfoldable pub skip : Bytes → Result ℕ
skip bs = skip_loop (length bs) (start bs) 0

-- The `default:` case of the switch over fields: the field that begins at `pre` is passed over.
unfoldable pub skip_unknown {ℓ} : {M : Type ℓ} → Cursor → M → Result (M × Cursor)
skip_unknown pre m = do
  skippy ← skip pre.rest
  fail_if (leb (2 ^ 63) skippy || leb (2 ^ 63) (pre.idx + skippy)) invalid_length
  fail_if (ltb (length pre.rest) skippy) unexpected_eof
  ok (m, advance skippy pre)

-- A `case` for a length-delimited field: a string, or bytes that another codec reads.
unfoldable pub bytes_case {ℓ} : {M : Type ℓ} → ℕ → (Bytes → Result M) → Cursor → Result (M × Cursor)
bytes_case wire_type read c = do
  fail_if (not (wire_type == 2)) wrong_wire_type
  (bs, c') ← read_bytes c
  m ← read bs
  ok (m, c')

-- A `case` for a number of `width` bits.
unfoldable pub varint_case {ℓ} : {M : Type ℓ} → ℕ → ℕ → (ℕ → M) → Cursor → Result (M × Cursor)
varint_case width wire_type set c = do
  fail_if (not (wire_type == 0)) wrong_wire_type
  (v, c') ← read_varint width c
  ok (set v, c')

-- The result of the codec of a field.
abbrev pub nested_or {ℓ κ} : {A : Type ℓ} {M : Type κ} → Option A → (A → M) → Result M
nested_or none set = err nested
nested_or (some a) set = ok (set a)

module _ {ℓ} {M : Type ℓ} (field : ℕ → ℕ → Cursor → Cursor → M → Result (M × Cursor)) where
  -- `for iNdEx < l`. `field` is the message's own `switch fieldNum`: it gets the number, the wire
  -- type, where the tag began and where it ended.
  unfoldable pub unmarshal_loop : ℕ → M → Cursor → Result M
  unmarshal_loop zero m c = if is_empty c.rest then ok m else stuck
  unmarshal_loop (suc fuel) m c = if is_empty c.rest then ok m else (do
    (wire, c1) ← read_varint 64 c
    let field_num = wire / 8 % 2 ^ 32
    fail_if (wire % 8 == 4) end_group
    fail_if (field_num == 0 || leb (2 ^ 31) field_num) illegal_tag
    (m', c2) ← field field_num (wire % 8) c c1 m
    unmarshal_loop fuel m' c2)

  -- Each round takes a byte at least, so `length bs` rounds are enough.
  unfoldable pub unmarshal_all : M → Bytes → Result M
  unfolding unmarshal_loop
  unmarshal_all m bs = unmarshal_loop (length bs) m (start bs)
