-- ===== src/Api/Params/Codec.antt =====
-- The codec of Params: the functions of ProtoMethods in api/halbornctf/hal/params.pulsar.go.
use halborn.Prelude.{ℕ, ◌+◌, Bytes, Bool, ◌++◌, ◌==◌, if◌then◌else◌, Option}
use halborn.Wire.Result.{Result}
use halborn.Wire.Reader.{Cursor, varint_case, unmarshal_all}
use halborn.Wire.Writer.{Writer, ◌>>◌, put_bytes}
use halborn.Prelude.{length}
use halborn.Wire.Params.{to_u64, to_i32}
use halborn.Api.Runtime.{
  Runtime, Codec, number_size, message_size, put_number, put_message, size_message, marshal_message,
  marshal_whole,
}
use halborn.Api.Runtime.Unmarshal.{keep_unknown, message_case, unmarshal_message}
use halborn.Api.TokenMeta.{TokenMeta}
use halborn.Api.Params.{Params, new_params}

module _ {Duration : Type 0} (rt : Runtime) (duration_codec : Codec Duration)
    (token_meta_codec : Codec TokenMeta) where
  unfoldable pub size_fields : Params Duration → ℕ
  size_fields x =
      message_size rt duration_codec x.redeem_dur
      + number_size rt (to_u64 x.max_redeem_entries)
      + message_size rt token_meta_codec x.collateral_metas
      + message_size rt token_meta_codec x.hal_meta
      + length x.unknown_fields

  unfoldable pub fill : Params Duration → Writer
  fill x =
      put_bytes x.unknown_fields
      >> put_message rt token_meta_codec 0x22 x.hal_meta
      >> put_message rt token_meta_codec 0x1a x.collateral_metas
      >> put_number rt 0x10 (to_u64 x.max_redeem_entries)
      >> put_message rt duration_codec 0x0a x.redeem_dur

  -- The `switch fieldNum`; `discard` is the option DiscardUnknown.
  unfoldable pub unmarshal_field :
      Bool → ℕ → ℕ → Cursor → Cursor → Params Duration → Result (Params Duration × Cursor)
  unmarshal_field discard num wire_type pre c m =
      if num == 1
      then message_case duration_codec wire_type m.redeem_dur (λ a. record m { redeem_dur = a }) c
      else (if num == 2
          then varint_case 32 wire_type (λ v. record m { max_redeem_entries = to_i32 v }) c
          else (if num == 3
              then message_case token_meta_codec wire_type m.collateral_metas
                  (λ a. record m { collateral_metas = a }) c
              else (if num == 4
                  then message_case token_meta_codec wire_type m.hal_meta
                      (λ a. record m { hal_meta = a }) c
                  else keep_unknown rt discard
                      (λ new. record m { unknown_fields = m.unknown_fields ++ new }) m pre)))

  unfoldable pub size : Option (Params Duration) → ℕ
  unfolding size_fields
  size x = size_message size_fields x

  unfoldable pub marshal : Option Bytes → Option (Params Duration) → Option (Option Bytes)
  unfolding size_fields fill
  marshal buf x = marshal_message size_fields fill buf x

  unfoldable pub unmarshal :
      Bool → Option (Params Duration) → Bytes → Result (Option (Params Duration))
  unfolding unmarshal_field
  unmarshal discard x bs = unmarshal_message (unmarshal_field discard) x bs

  -- The codec of a field that holds a Params.
  abbrev pub codec : Bool → Codec (Params Duration)
  codec discard = record {
    new_message = new_params;
    size = size_fields;
    marshal = λ x. marshal_whole (size_fields x) (fill x);
    unmarshal = λ x bs. unmarshal_all (unmarshal_field discard) x bs;
  }
