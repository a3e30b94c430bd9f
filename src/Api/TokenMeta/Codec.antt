-- ===== src/Api/TokenMeta/Codec.antt =====
-- The codec of TokenMeta: the functions of ProtoMethods in api/halbornctf/hal/params.pulsar.go.
use halborn.Prelude.{ℕ, ◌+◌, Bytes, Bool, ◌++◌, ◌==◌, if◌then◌else◌, Option}
use halborn.Wire.Result.{Result, ok}
use halborn.Wire.Reader.{Cursor, bytes_case, varint_case, unmarshal_all}
use halborn.Wire.Writer.{Writer, ◌>>◌, put_bytes}
use halborn.Prelude.{length}
use halborn.Api.Runtime.{
  Runtime, Codec, string_size, number_size, put_string, put_number, size_message, marshal_message,
  marshal_whole,
}
use halborn.Api.Runtime.Unmarshal.{keep_unknown, unmarshal_message}
use halborn.Api.TokenMeta.{TokenMeta, new_token_meta}

module _ (rt : Runtime) where
  unfoldable pub size_fields : TokenMeta → ℕ
  size_fields x =
      string_size rt x.denom
      + number_size rt x.decimals
      + string_size rt x.description
      + length x.unknown_fields

  unfoldable pub fill : TokenMeta → Writer
  fill x =
      put_bytes x.unknown_fields
      >> put_string rt 0x1a x.description
      >> put_number rt 0x10 x.decimals
      >> put_string rt 0x0a x.denom

  -- The `switch fieldNum`; `discard` is the option DiscardUnknown.
  unfoldable pub unmarshal_field :
      Bool → ℕ → ℕ → Cursor → Cursor → TokenMeta → Result (TokenMeta × Cursor)
  unmarshal_field discard num wire_type pre c m =
      if num == 1
      then bytes_case wire_type (λ s. ok (record m { denom = s })) c
      else (if num == 2
          then varint_case 32 wire_type (λ v. record m { decimals = v }) c
          else (if num == 3
              then bytes_case wire_type (λ s. ok (record m { description = s })) c
              else keep_unknown rt discard
                  (λ new. record m { unknown_fields = m.unknown_fields ++ new }) m pre))

  unfoldable pub size : Option TokenMeta → ℕ
  unfolding size_fields
  size x = size_message size_fields x

  unfoldable pub marshal : Option Bytes → Option TokenMeta → Option (Option Bytes)
  unfolding size_fields fill
  marshal buf x = marshal_message size_fields fill buf x

  unfoldable pub unmarshal : Bool → Option TokenMeta → Bytes → Result (Option TokenMeta)
  unfolding unmarshal_field
  unmarshal discard x bs = unmarshal_message (unmarshal_field discard) x bs

  -- The codec of a field that holds a TokenMeta.
  abbrev pub codec : Bool → Codec TokenMeta
  codec discard = record {
    new_message = new_token_meta;
    size = size_fields;
    marshal = λ x. marshal_whole (size_fields x) (fill x);
    unmarshal = λ x bs. unmarshal_all (unmarshal_field discard) x bs;
  }
