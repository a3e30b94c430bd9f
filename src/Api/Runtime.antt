-- ===== src/Api/Runtime.antt =====
-- The size and marshal functions of `ProtoMethods`, round the fields of a message. The
-- files repeat this code; the lines are those of tickets.pulsar.go and redeem_request.pulsar.go.
pub mod Unmarshal
pub mod Writes
pub mod Reads
pub mod Gogo
use halborn.Prelude.{
  ℕ, ◌+◌, Bytes, ◌++◌, length, replicate, ltb, ◌==◌, if◌then◌else◌, Option, none, some,
}
use halborn.Wire.Result.{Result}
use halborn.Wire.Writer.{Writer, ◌>>◌, make, put_byte, put_bytes}

-- What the files use of github.com/cosmos/cosmos-proto/runtime: `Sov`, `EncodeVarint` and `Skip`.
pub record Runtime : Type 0 where
  pub sov : ℕ → ℕ
  pub encode_varint : ℕ → Writer
  pub skip : Bytes → Result ℕ

-- `new(A)`, `options.Size`, `options.Marshal` (`none` is its error) and `options.Unmarshal`, which
-- merges into the message that is there, for a field that is a message.
pub record Codec {ℓ} (A : Type ℓ) : Type ℓ where
  pub new_message : A
  pub size : A → ℕ
  pub marshal : A → Option Bytes
  pub unmarshal : A → Bytes → Result A

module _ (rt : Runtime) where
  -- What a field adds to the size.
  unfoldable pub bytes_size : ℕ → ℕ
  bytes_size l = 1 + l + rt.sov l

  unfoldable pub string_size : Bytes → ℕ
  unfolding bytes_size
  string_size s = if ltb 0 (length s) then bytes_size (length s) else 0

  unfoldable pub number_size : ℕ → ℕ
  number_size v = if v == 0 then 0 else 1 + rt.sov v

  unfoldable pub message_size {ℓ} : {A : Type ℓ} → Codec A → Option A → ℕ
  unfolding bytes_size
  message_size codec none = 0
  message_size codec (some a) = bytes_size (codec.size a)

  -- The bytes, their length and the tag are put in front of what is written already.
  unfoldable pub put_delimited : ℕ → Bytes → Writer
  put_delimited tag s = put_bytes s >> rt.encode_varint (length s) >> put_byte tag

  unfoldable pub put_string : ℕ → Bytes → Writer
  unfolding put_delimited
  put_string tag s = if ltb 0 (length s) then put_delimited tag s else some

  unfoldable pub put_number : ℕ → ℕ → Writer
  put_number tag v = if v == 0 then some else rt.encode_varint v >> put_byte tag

  unfoldable pub put_encoded : ℕ → Option Bytes → Writer
  unfolding put_delimited
  put_encoded tag none b = none
  put_encoded tag (some bs) b = put_delimited tag bs b

  unfoldable pub put_message {ℓ} : {A : Type ℓ} → Codec A → ℕ → Option A → Writer
  unfolding put_encoded
  put_message codec tag none = some
  put_message codec tag (some a) = put_encoded tag (codec.marshal a)

-- `make([]byte, size)`, filled from its end, all of it returned
unfoldable pub marshal_whole : ℕ → Writer → Option Bytes
marshal_whole size w = elim (w (make size)) [
  | none ↦ none
  | some b ↦ some (replicate b.room 0 ++ b.out)
]

-- `input.Buf`, nil or not, with the bytes of the message appended
abbrev pub appended : Option Bytes → Bytes → Bytes
appended none bs = bs
appended (some old) bs = old ++ bs

module _ {ℓ} {M : Type ℓ} where
  unfoldable pub size_message : (M → ℕ) → Option M → ℕ
  size_message size none = 0
  size_message size (some x) = size x

  -- `none` is an error or a panic; a nil message leaves `input.Buf` as it is.
  unfoldable pub marshal_message :
      (M → ℕ) → (M → Writer) → Option Bytes → Option M → Option (Option Bytes)
  unfolding marshal_whole
  marshal_message size fill buf none = some buf
  marshal_message size fill buf (some x) = elim (marshal_whole (size x) (fill x)) [
    | none ↦ none
    | some bs ↦ some (some (appended buf bs))
  ]
