-- ===== src/Wire/TokenMeta.antt =====
-- The codec of TokenMeta: x/hal/types/params.pb.go.
pub mod RoundTrip
use halborn.Prelude.{ℕ, ◌+◌, Bytes, if◌then◌else◌, ◌==◌}
use halborn.Types.Params.{TokenMeta}
use halborn.Wire.Result.{Result, ok}
use halborn.Wire.Reader.{Cursor, bytes_case, varint_case, skip_unknown, unmarshal_all}
use halborn.Wire.Writer.{
  Writer, ◌>>◌, put_string_field, put_varint_field, string_field_size, varint_field_size,
}

unfoldable pub size : TokenMeta → ℕ
size m = string_field_size m.denom + varint_field_size m.decimals + string_field_size m.description

unfoldable pub marshal_to_sized_buffer : TokenMeta → Writer
marshal_to_sized_buffer m =
    put_string_field 0x1a m.description
    >> put_varint_field 0x10 m.decimals
    >> put_string_field 0x0a m.denom

-- The `switch fieldNum` of Unmarshal.
unfoldable pub unmarshal_field : ℕ → ℕ → Cursor → Cursor → TokenMeta → Result (TokenMeta × Cursor)
unmarshal_field num wire_type pre c m =
    if num == 1
    then bytes_case wire_type (λ s. ok (record m { denom = s })) c
    else (if num == 2
        then varint_case 32 wire_type (λ v. record m { decimals = v }) c
        else (if num == 3
            then bytes_case wire_type (λ s. ok (record m { description = s })) c
            else skip_unknown pre m))

-- What is read is merged into the message.
unfoldable pub unmarshal : TokenMeta → Bytes → Result TokenMeta
unfolding unmarshal_field
unmarshal m bs = unmarshal_all unmarshal_field m bs
