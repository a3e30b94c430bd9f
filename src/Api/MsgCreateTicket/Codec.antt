-- ===== src/Api/MsgCreateTicket/Codec.antt =====
-- The codec of MsgCreateTicket: the functions of ProtoMethods in api/halbornctf/hal/tx.pulsar.go.
use halborn.Prelude.{ℕ, ◌+◌, Bytes, Bool, ◌++◌, ◌==◌, if◌then◌else◌, Option}
use halborn.Wire.Result.{Result, ok}
use halborn.Wire.Reader.{Cursor, bytes_case}
use halborn.Wire.Writer.{Writer, ◌>>◌, put_bytes}
use halborn.Prelude.{length}
use halborn.Api.Runtime.{Runtime, string_size, put_string, size_message, marshal_message}
use halborn.Api.Runtime.Unmarshal.{keep_unknown, unmarshal_message}
use halborn.Api.MsgCreateTicket.{MsgCreateTicket}

module _ (rt : Runtime) where
  unfoldable pub size_fields : MsgCreateTicket → ℕ
  size_fields x =
      string_size rt x.creator
      + string_size rt x.author
      + string_size rt x.issue
      + length x.unknown_fields

  unfoldable pub fill : MsgCreateTicket → Writer
  fill x =
      put_bytes x.unknown_fields
      >> put_string rt 0x1a x.issue
      >> put_string rt 0x12 x.author
      >> put_string rt 0x0a x.creator

  -- The `switch fieldNum`; `discard` is the option DiscardUnknown.
  unfoldable pub unmarshal_field :
      Bool → ℕ → ℕ → Cursor → Cursor → MsgCreateTicket → Result (MsgCreateTicket × Cursor)
  unmarshal_field discard num wire_type pre c m =
      if num == 1
      then bytes_case wire_type (λ s. ok (record m { creator = s })) c
      else (if num == 2
          then bytes_case wire_type (λ s. ok (record m { author = s })) c
          else (if num == 3
              then bytes_case wire_type (λ s. ok (record m { issue = s })) c
              else keep_unknown rt discard
                  (λ new. record m { unknown_fields = m.unknown_fields ++ new }) m pre))

  unfoldable pub size : Option MsgCreateTicket → ℕ
  unfolding size_fields
  size x = size_message size_fields x

  unfoldable pub marshal : Option Bytes → Option MsgCreateTicket → Option (Option Bytes)
  unfolding size_fields fill
  marshal buf x = marshal_message size_fields fill buf x

  unfoldable pub unmarshal : Bool → Option MsgCreateTicket → Bytes → Result (Option MsgCreateTicket)
  unfolding unmarshal_field
  unmarshal discard x bs = unmarshal_message (unmarshal_field discard) x bs
