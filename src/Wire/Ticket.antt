-- ===== src/Wire/Ticket.antt =====
-- The codec of Ticket: x/hal/types/tickets.pb.go.
pub mod RoundTrip
use halborn.Prelude.{ℕ, ◌+◌, Bytes, if◌then◌else◌, ◌==◌, Option}
use halborn.Types.Records.{Ticket, no_ticket}
use halborn.Wire.Result.{Result, ok}
use halborn.Wire.Reader.{Cursor, bytes_case, varint_case, skip_unknown, unmarshal_all}
use halborn.Wire.Writer.{
  Writer, ◌>>◌, put_string_field, put_varint_field, string_field_size, varint_field_size,
  marshal_sized,
}

unfoldable pub size : Ticket → ℕ
size m =
    string_field_size m.author
    + string_field_size m.issue
    + varint_field_size m.id
    + string_field_size m.additional_info

-- The fields go in from the last to the first.
unfoldable pub marshal_to_sized_buffer : Ticket → Writer
marshal_to_sized_buffer m =
    put_string_field 0x22 m.additional_info
    >> put_varint_field 0x18 m.id
    >> put_string_field 0x12 m.issue
    >> put_string_field 0x0a m.author

unfoldable pub marshal : Ticket → Option Bytes
unfolding size marshal_to_sized_buffer
marshal m = marshal_sized (size m) (marshal_to_sized_buffer m)

-- The `switch fieldNum` of Unmarshal.
unfoldable pub unmarshal_field : ℕ → ℕ → Cursor → Cursor → Ticket → Result (Ticket × Cursor)
unmarshal_field num wire_type pre c m =
    if num == 1
    then bytes_case wire_type (λ s. ok (record m { author = s })) c
    else (if num == 2
        then bytes_case wire_type (λ s. ok (record m { issue = s })) c
        else (if num == 3
            then varint_case 64 wire_type (λ v. record m { id = v }) c
            else (if num == 4
                then bytes_case wire_type (λ s. ok (record m { additional_info = s })) c
                else skip_unknown pre m)))

unfoldable pub unmarshal : Bytes → Result Ticket
unfolding unmarshal_field
unmarshal bs = unmarshal_all unmarshal_field no_ticket bs
