-- ===== src/Api/MsgUpdateParams/Codec.antt =====
-- The codec of MsgUpdateParams: the functions of ProtoMethods in api/halbornctf/hal/tx.pulsar.go.
use halborn.Prelude.{ℕ, ◌+◌, Bytes, Bool, ◌++◌, ◌==◌, if◌then◌else◌, Option}
use halborn.Wire.Result.{Result, ok}
use halborn.Wire.Reader.{Cursor, bytes_case}
use halborn.Wire.Writer.{Writer, ◌>>◌, put_bytes}
use halborn.Prelude.{length}
use halborn.Api.Runtime.{
  Runtime, Codec, string_size, message_size, put_string, put_message, size_message, marshal_message,
}
use halborn.Api.Runtime.Unmarshal.{keep_unknown, message_case, unmarshal_message}
use halborn.Api.Params.{Params}
use halborn.Api.MsgUpdateParams.{MsgUpdateParams}

module _ {Duration : Type 0} (rt : Runtime) (params_codec : Codec (Params Duration)) where
  unfoldable pub size_fields : MsgUpdateParams Duration → ℕ
  size_fields x =
      string_size rt x.authority + message_size rt params_codec x.params + length x.unknown_fields

  unfoldable pub fill : MsgUpdateParams Duration → Writer
  fill x =
      put_bytes x.unknown_fields
      >> put_message rt params_codec 0x12 x.params
      >> put_string rt 0x0a x.authority

  -- The `switch fieldNum`; `discard` is the option DiscardUnknown.
  unfoldable pub unmarshal_field :
      Bool
      → ℕ
      → ℕ
      → Cursor
      → Cursor
      → MsgUpdateParams Duration
      → Result (MsgUpdateParams Duration × Cursor)
  unmarshal_field discard num wire_type pre c m =
      if num == 1
      then bytes_case wire_type (λ s. ok (record m { authority = s })) c
      else (if num == 2
          then message_case params_codec wire_type m.params (λ a. record m { params = a }) c
          else keep_unknown rt discard
              (λ new. record m { unknown_fields = m.unknown_fields ++ new }) m pre)

  unfoldable pub size : Option (MsgUpdateParams Duration) → ℕ
  unfolding size_fields
  size x = size_message size_fields x

  unfoldable pub marshal : Option Bytes → Option (MsgUpdateParams Duration) → Option (Option Bytes)
  unfolding size_fields fill
  marshal buf x = marshal_message size_fields fill buf x

  unfoldable pub unmarshal :
      Bool → Option (MsgUpdateParams Duration) → Bytes → Result (Option (MsgUpdateParams Duration))
  unfolding unmarshal_field
  unmarshal discard x bs = unmarshal_message (unmarshal_field discard) x bs
