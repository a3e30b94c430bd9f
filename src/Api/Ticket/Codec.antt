-- ===== src/Api/Ticket/Codec.antt =====
-- The codec of Ticket: the functions of ProtoMethods in api/halbornctf/hal/tickets.pulsar.go.
use halborn.Prelude.{ℕ, ◌+◌, Bytes, Bool, ◌++◌, ◌==◌, if◌then◌else◌, Option}
use halborn.Wire.Result.{Result, ok}
use halborn.Wire.Reader.{Cursor, bytes_case, varint_case}
use halborn.Wire.Writer.{Writer, ◌>>◌, put_bytes}
use halborn.Prelude.{length}
use halborn.Api.Runtime.{
  Runtime, string_size, number_size, put_string, put_number, size_message, marshal_message,
}
use halborn.Api.Runtime.Unmarshal.{keep_unknown, unmarshal_message}
use halborn.Api.Ticket.{Ticket}

module _ (rt : Runtime) where
  unfoldable pub size_fields : Ticket → ℕ
  size_fields x =
      string_size rt x.author
      + string_size rt x.issue
      + number_size rt x.id
      + string_size rt x.additional_info
      + length x.unknown_fields

  unfoldable pub fill : Ticket → Writer
  fill x =
      put_bytes x.unknown_fields
      >> put_string rt 0x22 x.additional_info
      >> put_number rt 0x18 x.id
      >> put_string rt 0x12 x.issue
      >> put_string rt 0x0a x.author

  -- The `switch fieldNum`; `discard` is the option DiscardUnknown.
  unfoldable pub unmarshal_field :
      Bool → ℕ → ℕ → Cursor → Cursor → Ticket → Result (Ticket × Cursor)
  unmarshal_field discard num wire_type pre c m =
      if num == 1
      then bytes_case wire_type (λ s. ok (record m { author = s })) c
      else (if num == 2
          then bytes_case wire_type (λ s. ok (record m { issue = s })) c
          else (if num == 3
              then varint_case 64 wire_type (λ v. record m { id = v }) c
              else (if num == 4
                  then bytes_case wire_type (λ s. ok (record m { additional_info = s })) c
                  else keep_unknown rt discard
                      (λ new. record m { unknown_fields = m.unknown_fields ++ new }) m pre)))

  unfoldable pub size : Option Ticket → ℕ
  unfolding size_fields
  size x = size_message size_fields x

  unfoldable pub marshal : Option Bytes → Option Ticket → Option (Option Bytes)
  unfolding size_fields fill
  marshal buf x = marshal_message size_fields fill buf x

  unfoldable pub unmarshal : Bool → Option Ticket → Bytes → Result (Option Ticket)
  unfolding unmarshal_field
  unmarshal discard x bs = unmarshal_message (unmarshal_field discard) x bs
