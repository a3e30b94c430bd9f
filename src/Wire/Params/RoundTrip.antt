-- ===== src/Wire/Params/RoundTrip.antt =====
-- The stored parameters are read back as they were written.
use halborn.Prelude.{
  ℕ, ◌<◌, ◌^◌, ◌≡◌, refl, arith, Bytes, ◌++◌, length, length-append, some, lt→ltb,
}
use halborn.Prelude.Int.{pos}
use halborn.Types.Params.{Params, no_params}
use halborn.Wire.Result.{ok}
use halborn.Wire.Gogo.{Gogo, IsCodec}
use halborn.Wire.Encoding.{
  bytes_field, varint_field, >>-Writes, put_varint_field-Writes, put_bytes_field-Writes,
  put_message_field-Writes, bytes_field_size-length, varint_field_size-length, marshal_sized-Writes,
}
use halborn.Wire.Reads.{
  Reads, Reads-append, Reads-varint_field, Reads-bytes_field, unmarshal_all-Reads,
}
use halborn.Wire.TokenMeta.RoundTrip as Meta
use halborn.Wire.Params.{
  size, marshal_to_sized_buffer, marshal, unmarshal_field, unmarshal, to_u64, to_i32,
}

-- The bytes of parameters whose duration is marshalled as `dur`.
unfoldable pub encoding : Params → Bytes → Bytes
encoding p dur =
    bytes_field 0x0a dur
    ++ (varint_field 0x10 (to_u64 p.max_redeem_entries)
        ++ (bytes_field 0x1a (Meta.encoding p.collateral_metas)
            ++ bytes_field 0x22 (Meta.encoding p.hal_meta)))

-- The lengths are those of an int, and the number of entries is an int32 that is not negative.
pub record Fits (p : Params) (dur : Bytes) : Type 0 where
  pub dur_fits : length dur < 2 ^ 64
  pub entries : ℕ
  pub entries_lem : p.max_redeem_entries ≡ pos entries
  pub entries_fit : entries < 2 ^ 31
  pub collateral_fits : Meta.Fits p.collateral_metas
  pub collateral_short : length (Meta.encoding p.collateral_metas) < 2 ^ 63
  pub hal_fits : Meta.Fits p.hal_meta
  pub hal_short : length (Meta.encoding p.hal_meta) < 2 ^ 63

module _ (g : Gogo) (p : Params) (dur : Bytes)
    (timed : g.duration_marshal p.redeem_dur ≡ some dur) where
  entries-lt : Fits p dur → to_u64 p.max_redeem_entries < 2 ^ 64
  entries-lt h = rw h.entries_lem (omega (arith, h.entries_fit))

  size-length : Fits p dur → size g p ≡ length (encoding p dur)
  unfolding size encoding
  size-length h =
      let a = bytes_field 0x0a dur in
      let b = varint_field 0x10 (to_u64 p.max_redeem_entries) in
      let c = bytes_field 0x1a (Meta.encoding p.collateral_metas) in
      let d = bytes_field 0x22 (Meta.encoding p.hal_meta) in
      rw
        (
          timed,
          Meta.size-length p.collateral_metas h.collateral_fits,
          Meta.size-length p.hal_meta h.hal_fits,
        )
        (omega (
          arith,
          bytes_field_size-length 0x0a dur h.dur_fits,
          varint_field_size-length 0x10 (to_u64 p.max_redeem_entries) (entries-lt h),
          bytes_field_size-length 0x1a (Meta.encoding p.collateral_metas)
              (omega (arith, h.collateral_short)),
          bytes_field_size-length 0x22 (Meta.encoding p.hal_meta) (omega (arith, h.hal_short)),
          length-append a (b ++ (c ++ d)),
          length-append b (c ++ d),
          length-append c d,
        ))

  pub marshal-encoding : Fits p dur → marshal g p ≡ some (encoding p dur)
  unfolding marshal marshal_to_sized_buffer
  marshal-encoding h =
      rw (marshal, marshal_to_sized_buffer, timed)
        (marshal_sized-Writes (size g p)
          (unfold encoding in
            >>-Writes
              (>>-Writes
                (>>-Writes
                  (put_message_field-Writes 0x22
                    (Meta.marshal_to_sized_buffer-Writes p.hal_meta h.hal_fits)
                    (omega (arith, h.hal_short)))
                  (put_message_field-Writes 0x1a
                    (Meta.marshal_to_sized_buffer-Writes p.collateral_metas h.collateral_fits)
                    (omega (arith, h.collateral_short))))
                (put_varint_field-Writes 0x10 (to_u64 p.max_redeem_entries) (entries-lt h)))
              (put_bytes_field-Writes 0x0a dur h.dur_fits))
          (size-length h))

  in_range : (h : Fits p dur) → to_i32 h.entries ≡ pos h.entries
  in_range h = rw (lt→ltb h.entries (2 ^ 31) h.entries_fit)

  encoding-Reads : IsCodec g → Fits p dur → Reads (unmarshal_field g) (encoding p dur) no_params p
  unfolding encoding unmarshal_field
  encoding-Reads codec h =
      Reads-append _ (bytes_field 0x0a dur) _
        (Reads-bytes_field _ 0x0a dur {m' = record no_params { redeem_dur = p.redeem_dur }} _
          (omega arith) (omega arith) (omega arith) (λ pre c. refl)
          (rw (codec.duration-round p.redeem_dur dur timed)))
        (Reads-append _ (varint_field 0x10 (to_u64 p.max_redeem_entries)) _
          {m' = record no_params {
            redeem_dur = p.redeem_dur;
            max_redeem_entries = p.max_redeem_entries;
          }}
          (rw h.entries_lem (
            rw (in_range h) at (
              Reads-varint_field (unmarshal_field g) 32 0x10 h.entries
                (λ v. record no_params { redeem_dur = p.redeem_dur; max_redeem_entries = to_i32 v })
                (omega (arith, h.entries_fit)) (omega (arith, h.entries_fit)) (omega arith)
                (omega arith) (omega arith) (λ pre c. refl))))
          (Reads-append _ (bytes_field 0x1a (Meta.encoding p.collateral_metas)) _
            (Reads-bytes_field _ 0x1a (Meta.encoding p.collateral_metas)
              {m' = record p { hal_meta = no_params.hal_meta }} _ (omega arith) (omega arith)
              (omega arith) (λ pre c. refl)
              (rw
                (Meta.unmarshal-encoding p.collateral_metas h.collateral_fits h.collateral_short)))
            (Reads-bytes_field _ 0x22 (Meta.encoding p.hal_meta) {m' = p} _ (omega arith)
              (omega arith) (omega arith) (λ pre c. refl)
              (rw (Meta.unmarshal-encoding p.hal_meta h.hal_fits h.hal_short)))))

  -- Unmarshalling gives back the parameters.
  pub unmarshal-encoding :
      IsCodec g
      → Fits p dur
      → length (encoding p dur) < 2 ^ 63
      → unmarshal g (encoding p dur) ≡ ok p
  unfolding unmarshal
  unmarshal-encoding codec h short =
      unmarshal_all-Reads (unmarshal_field g) (encoding p dur) (encoding-Reads codec h) short

  -- Params.Marshal succeeds on parameters whose duration can be marshalled, whose number of
  -- entries is an int32 that is not negative, and whose fields are short, and Params.Unmarshal
  -- inverts it where the bytes are fewer than 2 ^ 63.
  pub unmarshal-marshal_params :
      IsCodec g
      → Fits p dur
      → length (encoding p dur) < 2 ^ 63
      → (bs : Bytes) × (marshal g p ≡ some bs) × (unmarshal g bs ≡ ok p)
  unmarshal-marshal_params codec h short =
      (encoding p dur, marshal-encoding h, unmarshal-encoding codec h short)
