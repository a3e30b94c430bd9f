-- ===== src/Wire/Writer.antt =====
-- What every generated `Marshal` is made of: a buffer that is filled from its end.
use halborn.Prelude.{
  ℕ, zero, suc, ◌+◌, ◌-◌, ◌/◌, ◌%◌, Bytes, [], ◌∷◌, ◌++◌, length, take, drop, replicate, ltb, leb,
  ◌==◌, if◌then◌else◌, Option, none, some,
}
use Prim.Native.Nat.{bit_or}

-- `dAtA` is `room` bytes not yet written, all 0, and then `out`: the code's `i` is `room`.
pub record Buffer : Type 0 where
  pub room : ℕ
  pub out : Bytes

-- `make([]byte, size)`
abbrev pub make : ℕ → Buffer
make size = record { room = size; out = [] }

-- A marshaller runs on the buffer; `none` is a panic, an index below 0.
abbrev pub Writer : Type 0
Writer = Buffer → Option Buffer

infixl 5 ◌>>◌
abbrev pub ◌>>◌ : Writer → Writer → Writer
◌>>◌ f g b = elim (f b) [ none ↦ none | some b' ↦ g b' ]

-- `i--; dAtA[i] = byte`
unfoldable pub put_byte : ℕ → Writer
put_byte byte b =
    if ltb b.room 1 then none else some (record { room = b.room - 1; out = byte ∷ b.out })

-- `i -= len(s); copy(dAtA[i:], s)`
unfoldable pub put_bytes : Bytes → Writer
put_bytes s b =
    if ltb b.room (length s)
    then none
    else some (record { room = b.room - length s; out = s ++ b.out })

-- `bits.Len64`: the number of binary digits; 64 rounds reach the end of a uint64.
unfoldable pub len_loop : ℕ → ℕ → ℕ
len_loop zero x = 0
len_loop (suc fuel) x = let rest = len_loop fuel (x / 2) in if ltb x 1 then 0 else rest + 1

unfoldable pub len64 : ℕ → ℕ
unfolding len_loop
len64 x = len_loop 64 x

-- `sov`: how many bytes a varint takes
unfoldable pub sov : ℕ → ℕ
unfolding len64
sov x = (len64 (bit_or x 1) + 6) / 7

-- The loop of `encodeVarint`, as the bytes that it writes from `offset` on; ten rounds end it on
-- every uint64.
unfoldable pub varint_loop : ℕ → ℕ → Bytes
varint_loop zero v = v % 256 ∷ []
varint_loop (suc fuel) v =
    let rest = varint_loop fuel (v / 128) in
    if leb 128 v then bit_or (v % 128) 128 ∷ rest else (v % 256 ∷ [])

-- Writing `s` from the front of `old` on.
abbrev pub overwrite : Bytes → Bytes → Bytes
overwrite old s = s ++ drop (length s) old

-- `encodeVarint`: room for `sov(v)` bytes is made first, and the loop writes from there on.
unfoldable pub encode_varint : ℕ → Writer
encode_varint v b =
    if ltb b.room (sov v)
    then none
    else some (record {
      room = b.room - sov v;
      out = overwrite (replicate (sov v) 0 ++ b.out) (varint_loop 9 v);
    })

-- `dAtA[:n]`, where `n = len(dAtA) - i` is returned by MarshalToSizedBuffer
abbrev pub written : Buffer → Bytes
written b = take (length b.out) (replicate b.room 0 ++ b.out)

-- `Marshal`: a buffer of `Size()` bytes, filled by `MarshalToSizedBuffer`
unfoldable pub marshal_sized : ℕ → Writer → Option Bytes
marshal_sized size w = elim (w (make size)) [ none ↦ none | some b ↦ some (written b) ]

-- A length-delimited field: the bytes, their length and the tag.
unfoldable pub put_bytes_field : ℕ → Bytes → Writer
put_bytes_field tag s = put_bytes s >> encode_varint (length s) >> put_byte tag

-- `if len(s) > 0`, round the writing of a string
unfoldable pub put_string_field : ℕ → Bytes → Writer
put_string_field tag s = if ltb 0 (length s) then put_bytes_field tag s else some

-- `if v != 0`, round the writing of a number
unfoldable pub put_varint_field : ℕ → ℕ → Writer
put_varint_field tag v = if v == 0 then some else encode_varint v >> put_byte tag

-- What these add to the size.
unfoldable pub bytes_field_size : ℕ → ℕ
bytes_field_size l = 1 + l + sov l

unfoldable pub string_field_size : Bytes → ℕ
string_field_size s = if ltb 0 (length s) then bytes_field_size (length s) else 0

unfoldable pub varint_field_size : ℕ → ℕ
varint_field_size v = if v == 0 then 0 else 1 + sov v

-- A field that holds a message: the message is written first, then what it took and the tag.
unfoldable pub put_message_field : ℕ → Writer → Writer
put_message_field tag w b = elim (w b) [
  | none ↦ none
  | some b' ↦ (encode_varint (b.room - b'.room) >> put_byte tag) b'
]

-- `n, err := …; if err != nil { return 0, err }`, round the writing of a time or a duration
unfoldable pub put_or_fail : ℕ → Option Bytes → Option Writer
put_or_fail tag none = none
put_or_fail tag (some bs) = some (put_bytes_field tag bs)
