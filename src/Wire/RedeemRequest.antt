-- ===== src/Wire/RedeemRequest.antt =====
-- The codec of RedeemRequest: x/hal/types/redeem_request.pb.go.
pub mod RoundTrip
pub mod Confusion
use halborn.Prelude.{ℕ, ◌+◌, Bytes, length, if◌then◌else◌, ◌==◌, Option, none, some}
use halborn.Types.Records.{RedeemRequest, no_request}
use halborn.Wire.Result.{Result, ok}
use halborn.Wire.Reader.{Cursor, bytes_case, nested_or, skip_unknown, unmarshal_all}
use halborn.Wire.Writer.{
  Writer, ◌>>◌, put_or_fail, put_bytes_field, put_string_field, bytes_field_size, string_field_size,
  marshal_sized,
}
use halborn.Wire.Gogo.{Gogo, size_of}

module _ (g : Gogo) where
  unfoldable pub size : RedeemRequest → ℕ
  size m =
      string_field_size m.account
      + bytes_field_size (length (g.coin_marshal m.collateral))
      + bytes_field_size (size_of (g.time_marshal m.completiontime))

  unfoldable pub marshal_to_sized_buffer : RedeemRequest → Option Writer
  unfolding put_or_fail
  marshal_to_sized_buffer m = elim (put_or_fail 0x1a (g.time_marshal m.completiontime)) [
    | none ↦ none
    | some put_time ↦ some (
        put_time
        >> put_bytes_field 0x12 (g.coin_marshal m.collateral)
        >> put_string_field 0x0a m.account)
  ]

  -- `none`: an error or a panic
  unfoldable pub marshal : RedeemRequest → Option Bytes
  unfolding size marshal_to_sized_buffer
  marshal m = elim (marshal_to_sized_buffer m) [ none ↦ none | some w ↦ marshal_sized (size m) w ]

  -- The `switch fieldNum` of Unmarshal.
  unfoldable pub unmarshal_field :
      ℕ → ℕ → Cursor → Cursor → RedeemRequest → Result (RedeemRequest × Cursor)
  unmarshal_field num wire_type pre c m =
      if num == 1
      then bytes_case wire_type (λ s. ok (record m { account = s })) c
      else (if num == 2
          then bytes_case wire_type
              (λ s.
                nested_or (g.coin_unmarshal m.collateral s)
                  (λ coin. record m { collateral = coin }))
              c
          else (if num == 3
              then bytes_case wire_type
                  (λ s. nested_or (g.time_unmarshal s) (λ t. record m { completiontime = t })) c
              else skip_unknown pre m))

  unfoldable pub unmarshal : Bytes → Result RedeemRequest
  unfolding unmarshal_field
  unmarshal bs = unmarshal_all unmarshal_field no_request bs
