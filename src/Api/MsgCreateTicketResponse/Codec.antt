-- ===== src/Api/MsgCreateTicketResponse/Codec.antt =====
-- The codec of MsgCreateTicketResponse: the functions of ProtoMethods in api/halbornctf/hal/tx.pulsar.go.
use halborn.Prelude.{ℕ, ◌+◌, Bytes, Bool, ◌++◌, ◌==◌, if◌then◌else◌, Option}
use halborn.Wire.Result.{Result}
use halborn.Wire.Reader.{Cursor, varint_case}
use halborn.Wire.Writer.{Writer, ◌>>◌, put_bytes}
use halborn.Prelude.{length}
use halborn.Api.Runtime.{Runtime, number_size, put_number, size_message, marshal_message}
use halborn.Api.Runtime.Unmarshal.{keep_unknown, unmarshal_message}
use halborn.Api.MsgCreateTicketResponse.{MsgCreateTicketResponse}

module _ (rt : Runtime) where
  unfoldable pub size_fields : MsgCreateTicketResponse → ℕ
  size_fields x = number_size rt x.id + length x.unknown_fields

  unfoldable pub fill : MsgCreateTicketResponse → Writer
  fill x = put_bytes x.unknown_fields >> put_number rt 0x08 x.id

  -- The `switch fieldNum`; `discard` is the option DiscardUnknown.
  unfoldable pub unmarshal_field :
      Bool
      → ℕ
      → ℕ
      → Cursor
      → Cursor
      → MsgCreateTicketResponse
      → Result (MsgCreateTicketResponse × Cursor)
  unmarshal_field discard num wire_type pre c m =
      if num == 1
      then varint_case 64 wire_type (λ v. record m { id = v }) c
      else keep_unknown rt discard (λ new. record m { unknown_fields = m.unknown_fields ++ new }) m
          pre

  unfoldable pub size : Option MsgCreateTicketResponse → ℕ
  unfolding size_fields
  size x = size_message size_fields x

  unfoldable pub marshal : Option Bytes → Option MsgCreateTicketResponse → Option (Option Bytes)
  unfolding size_fields fill
  marshal buf x = marshal_message size_fields fill buf x

  unfoldable pub unmarshal :
      Bool → Option MsgCreateTicketResponse → Bytes → Result (Option MsgCreateTicketResponse)
  unfolding unmarshal_field
  unmarshal discard x bs = unmarshal_message (unmarshal_field discard) x bs
