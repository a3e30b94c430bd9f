-- ===== src/Api/MsgUpdateParamsResponse/Codec.antt =====
-- The codec of MsgUpdateParamsResponse: the functions of ProtoMethods in api/halbornctf/hal/tx.pulsar.go.
use halborn.Prelude.{ℕ, Bytes, Bool, ◌++◌, Option, length}
use halborn.Wire.Result.{Result}
use halborn.Wire.Reader.{Cursor}
use halborn.Wire.Writer.{Writer, put_bytes}
use halborn.Api.Runtime.{Runtime, size_message, marshal_message}
use halborn.Api.Runtime.Unmarshal.{keep_unknown, unmarshal_message}
use halborn.Api.MsgUpdateParamsResponse.{MsgUpdateParamsResponse}

unfoldable pub size_fields : MsgUpdateParamsResponse → ℕ
size_fields x = length x.unknown_fields

unfoldable pub fill : MsgUpdateParamsResponse → Writer
fill x = put_bytes x.unknown_fields

unfoldable pub size : Option MsgUpdateParamsResponse → ℕ
unfolding size_fields
size x = size_message size_fields x

unfoldable pub marshal : Option Bytes → Option MsgUpdateParamsResponse → Option (Option Bytes)
unfolding size_fields fill
marshal buf x = marshal_message size_fields fill buf x

module _ (rt : Runtime) where
  -- The `switch fieldNum`, with its default case; `discard` is the option DiscardUnknown.
  unfoldable pub unmarshal_field :
      Bool
      → ℕ
      → ℕ
      → Cursor
      → Cursor
      → MsgUpdateParamsResponse
      → Result (MsgUpdateParamsResponse × Cursor)
  unmarshal_field discard num wire_type pre c m =
      keep_unknown rt discard (λ new. record m { unknown_fields = m.unknown_fields ++ new }) m pre

  unfoldable pub unmarshal :
      Bool → Option MsgUpdateParamsResponse → Bytes → Result (Option MsgUpdateParamsResponse)
  unfolding unmarshal_field
  unmarshal discard x bs = unmarshal_message (unmarshal_field discard) x bs
