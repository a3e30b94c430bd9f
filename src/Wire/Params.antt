-- ===== src/Wire/Params.antt =====
-- The codec of Params: x/hal/types/params.pb.go.
pub mod RoundTrip
use halborn.Prelude.{ℕ, suc, ◌+◌, ◌-◌, ◌^◌, Bytes, ltb, if◌then◌else◌, ◌==◌, Option, none, some}
use halborn.Prelude.Int.{ℤ, pos, negsuc}
use halborn.Types.Params.{TokenMeta, Params, no_params}
use halborn.Wire.Result.{Result, ok, ◌>>=◌}
use halborn.Wire.Reader.{Cursor, bytes_case, varint_case, nested_or, skip_unknown, unmarshal_all}
use halborn.Wire.Writer.{
  Writer, ◌>>◌, put_or_fail, put_message_field, put_varint_field, bytes_field_size,
  varint_field_size, marshal_sized,
}
use halborn.Wire.Gogo.{Gogo, size_of}
use halborn.Wire.TokenMeta

-- `uint64(v)` of an int32, and the int32 of which the 32 bits are given
abbrev pub to_u64 : ℤ → ℕ
to_u64 (pos n) = n
to_u64 (negsuc n) = 2 ^ 64 - suc n

abbrev pub to_i32 : ℕ → ℤ
to_i32 w = if ltb w (2 ^ 31) then pos w else negsuc (2 ^ 32 - w - 1)

-- The codec of a field that is a message, where it reads on into the value that is there.
abbrev pub merged {ℓ κ} : {A : Type ℓ} {M : Type κ} → Result A → (A → M) → Result M
merged r set = r >>= λ a. ok (set a)

module _ (g : Gogo) where
  unfoldable pub size : Params → ℕ
  size m =
      bytes_field_size (size_of (g.duration_marshal m.redeem_dur))
      + varint_field_size (to_u64 m.max_redeem_entries)
      + bytes_field_size (TokenMeta.size m.collateral_metas)
      + bytes_field_size (TokenMeta.size m.hal_meta)

  unfoldable pub marshal_to_sized_buffer : Params → Option Writer
  unfolding put_or_fail
  marshal_to_sized_buffer m = elim (put_or_fail 0x0a (g.duration_marshal m.redeem_dur)) [
    | none ↦ none
    | some put_duration ↦ some (
        put_message_field 0x22 (TokenMeta.marshal_to_sized_buffer m.hal_meta)
        >> put_message_field 0x1a (TokenMeta.marshal_to_sized_buffer m.collateral_metas)
        >> put_varint_field 0x10 (to_u64 m.max_redeem_entries)
        >> put_duration)
  ]

  -- `none`: an error or a panic
  unfoldable pub marshal : Params → Option Bytes
  unfolding size marshal_to_sized_buffer
  marshal m = elim (marshal_to_sized_buffer m) [ none ↦ none | some w ↦ marshal_sized (size m) w ]

  -- The `switch fieldNum` of Unmarshal.
  unfoldable pub unmarshal_field : ℕ → ℕ → Cursor → Cursor → Params → Result (Params × Cursor)
  unmarshal_field num wire_type pre c m =
      if num == 1
      then bytes_case wire_type
          (λ s. nested_or (g.duration_unmarshal s) (λ d. record m { redeem_dur = d })) c
      else (if num == 2
          then varint_case 32 wire_type (λ v. record m { max_redeem_entries = to_i32 v }) c
          else (if num == 3
              then bytes_case wire_type
                  (λ s.
                    merged (TokenMeta.unmarshal m.collateral_metas s)
                      (λ t. record m { collateral_metas = t }))
                  c
              else (if num == 4
                  then bytes_case wire_type
                      (λ s.
                        merged (TokenMeta.unmarshal m.hal_meta s) (λ t. record m { hal_meta = t }))
                      c
                  else skip_unknown pre m)))

  unfoldable pub unmarshal : Bytes → Result Params
  unfolding unmarshal_field
  unmarshal bs = unmarshal_all unmarshal_field no_params bs
