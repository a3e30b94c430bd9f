-- ===== src/Api/Params/RoundTrip.antt =====
-- A Params is read back as it was written, its unknown fields included.
use halborn.Prelude.{
  ℕ, ◌<◌, ◌^◌, ◌≡◌, refl, arith, Bytes, [], ◌++◌, length, length-append, List, false, Option, some,
  ne→==_false,
}
use halborn.Prelude.Int.{pos}
use halborn.Wire.Params.{to_u64}
use halborn.Wire.Result.{ok}
use halborn.Wire.Encoding.{Writes, varint_field, >>-Writes, put_bytes-Writes}
use halborn.Wire.Reads.{Reads, Reads-append, unmarshal_all-Reads}
use halborn.Api.Runtime.{Runtime, Codec, appended, size_message}
use halborn.Api.Runtime.Writes.{
  IsRuntime, Encodes, EncodesField, number_size-length, message_size-length, put_number-Writes,
  put_message-Writes, marshal_whole-Writes, marshal_message-Writes,
}
use halborn.Api.Runtime.Reads.{
  Unknown, raw, AllUnknown, Reads-raw, Reads-message, Reads-int32_field, unmarshal_message-Reads,
}
use halborn.Api.TokenMeta.{TokenMeta}
use halborn.Api.Params.{Params, new_params}
use halborn.Api.Params.Codec.{size_fields, fill, unmarshal_field, size, marshal, unmarshal, codec}

-- The fields in the order of their numbers, and then the unknown ones.
unfoldable pub encoding : {Duration : Type 0} → Params Duration → Bytes → Bytes → Bytes → Bytes
encoding x redeem_dur_bytes collateral_metas_bytes hal_meta_bytes =
    redeem_dur_bytes
    ++ (varint_field 0x10 (to_u64 x.max_redeem_entries)
        ++ (collateral_metas_bytes ++ (hal_meta_bytes ++ x.unknown_fields)))

-- Texts and numbers are of the widths of their fields, the fields that are messages have the
-- bytes given, and the unknown fields are length-delimited.
pub record Fits {Duration : Type 0} (duration_codec : Codec Duration)
    (token_meta_codec : Codec TokenMeta) (x : Params Duration)
    (redeem_dur_bytes collateral_metas_bytes hal_meta_bytes : Bytes) : Type 0 where
  pub redeem_dur_encoded : EncodesField duration_codec 0x0a x.redeem_dur redeem_dur_bytes
  pub max_redeem_entries_number : ℕ
  pub max_redeem_entries_lem : x.max_redeem_entries ≡ pos max_redeem_entries_number
  pub max_redeem_entries_fits : max_redeem_entries_number < 2 ^ 31
  pub collateral_metas_encoded :
      EncodesField token_meta_codec 0x1a x.collateral_metas collateral_metas_bytes
  pub hal_meta_encoded : EncodesField token_meta_codec 0x22 x.hal_meta hal_meta_bytes
  pub unknowns : List Unknown
  pub unknowns_lem : x.unknown_fields ≡ raw unknowns
  pub all_unknown : AllUnknown 4 unknowns

module _ {Duration : Type 0} (rt : Runtime) (duration_codec : Codec Duration)
    (token_meta_codec : Codec TokenMeta) (is_rt : IsRuntime rt) (x : Params Duration)
    (redeem_dur_bytes collateral_metas_bytes hal_meta_bytes : Bytes)
    (h : Fits duration_codec token_meta_codec x redeem_dur_bytes collateral_metas_bytes
      hal_meta_bytes) where
  size_fields-length :
      size_fields rt duration_codec token_meta_codec x
      ≡ length (encoding x redeem_dur_bytes collateral_metas_bytes hal_meta_bytes)
  unfolding size_fields encoding
  size_fields-length =
      let s1 = redeem_dur_bytes in
      let s2 = varint_field 0x10 (to_u64 x.max_redeem_entries) in
      let s3 = collateral_metas_bytes in
      let s4 = hal_meta_bytes in
      omega (
        arith,
        message_size-length rt is_rt duration_codec 0x0a x.redeem_dur redeem_dur_bytes
            h.redeem_dur_encoded,
        number_size-length rt is_rt 0x10 (to_u64 x.max_redeem_entries)
            (rw h.max_redeem_entries_lem (omega (arith, h.max_redeem_entries_fits))),
        message_size-length rt is_rt token_meta_codec 0x1a x.collateral_metas collateral_metas_bytes
            h.collateral_metas_encoded,
        message_size-length rt is_rt token_meta_codec 0x22 x.hal_meta hal_meta_bytes
            h.hal_meta_encoded,
        length-append s1 (s2 ++ (s3 ++ (s4 ++ x.unknown_fields))),
        length-append s2 (s3 ++ (s4 ++ x.unknown_fields)),
        length-append s3 (s4 ++ x.unknown_fields),
        length-append s4 x.unknown_fields,
      )

  fill-Writes :
      Writes
        (fill rt duration_codec token_meta_codec x)
        (encoding x redeem_dur_bytes collateral_metas_bytes hal_meta_bytes)
  unfolding fill encoding
  fill-Writes =
      >>-Writes
        (>>-Writes
          (>>-Writes
            (>>-Writes (put_bytes-Writes x.unknown_fields) (
              put_message-Writes rt is_rt token_meta_codec 0x22 x.hal_meta hal_meta_bytes
                h.hal_meta_encoded))
            (put_message-Writes rt is_rt token_meta_codec 0x1a x.collateral_metas
              collateral_metas_bytes h.collateral_metas_encoded))
          (put_number-Writes rt is_rt 0x10 (to_u64 x.max_redeem_entries)
            (rw h.max_redeem_entries_lem (omega (arith, h.max_redeem_entries_fits)))))
        (put_message-Writes rt is_rt duration_codec 0x0a x.redeem_dur redeem_dur_bytes
          h.redeem_dur_encoded)

  unknowns-Reads :
      Reads
        (unmarshal_field rt duration_codec token_meta_codec false)
        x.unknown_fields
        (record x { unknown_fields = [] })
        x
  unfolding unmarshal_field
  unknowns-Reads = rw (← h.unknowns_lem) at (
      Reads-raw (unmarshal_field rt duration_codec token_meta_codec false) rt is_rt 4
        (λ u. record x { unknown_fields = u })
        (λ num wire_type pre c old above.
          rw
            (
              unmarshal_field,
              ne→==_false num 1 (omega arith),
              ne→==_false num 2 (omega arith),
              ne→==_false num 3 (omega arith),
              ne→==_false num 4 (omega arith),
            )
            refl)
        h.unknowns h.all_unknown [])

  encoding-Reads :
      Reads
        (unmarshal_field rt duration_codec token_meta_codec false)
        (encoding x redeem_dur_bytes collateral_metas_bytes hal_meta_bytes)
        new_params
        x
  unfolding encoding unmarshal_field
  encoding-Reads =
      Reads-append _ redeem_dur_bytes _
        (Reads-message _ duration_codec 0x0a x.redeem_dur redeem_dur_bytes
          (λ a. record new_params { redeem_dur = a }) (omega arith) (omega arith) (omega arith)
          (λ pre c. refl) h.redeem_dur_encoded)
        (Reads-append _ (varint_field 0x10 (to_u64 x.max_redeem_entries)) _
          (Reads-int32_field _ 0x10 x.max_redeem_entries h.max_redeem_entries_number
            (λ v. record new_params { redeem_dur = x.redeem_dur; max_redeem_entries = v })
            h.max_redeem_entries_lem h.max_redeem_entries_fits (omega arith) (omega arith)
            (omega arith) (λ pre c. refl))
          (Reads-append _ collateral_metas_bytes _
            (Reads-message _ token_meta_codec 0x1a x.collateral_metas collateral_metas_bytes
              (λ a. record new_params {
                redeem_dur = x.redeem_dur;
                max_redeem_entries = x.max_redeem_entries;
                collateral_metas = a;
              })
              (omega arith) (omega arith) (omega arith) (λ pre c. refl) h.collateral_metas_encoded)
            (Reads-append _ hal_meta_bytes _
              (Reads-message _ token_meta_codec 0x22 x.hal_meta hal_meta_bytes
                (λ a. record new_params {
                  redeem_dur = x.redeem_dur;
                  max_redeem_entries = x.max_redeem_entries;
                  collateral_metas = x.collateral_metas;
                  hal_meta = a;
                })
                (omega arith) (omega arith) (omega arith) (λ pre c. refl) h.hal_meta_encoded)
              (unknowns-Reads))))

  pub unmarshal-marshal_api_params :
      length (encoding x redeem_dur_bytes collateral_metas_bytes hal_meta_bytes) < 2 ^ 63
      → (buf : Option Bytes)
      → (size rt duration_codec token_meta_codec (some x)
          ≡ length (encoding x redeem_dur_bytes collateral_metas_bytes hal_meta_bytes))
        × (marshal rt duration_codec token_meta_codec buf (some x)
            ≡ some (
                some (
                  appended buf
                    (encoding x redeem_dur_bytes collateral_metas_bytes hal_meta_bytes))))
        × (unmarshal rt duration_codec token_meta_codec false
              (some new_params)
              (encoding x redeem_dur_bytes collateral_metas_bytes hal_meta_bytes)
            ≡ ok (some x))
  unfolding size marshal unmarshal size_message
  unmarshal-marshal_api_params short buf = (
    size_fields-length,
    marshal_message-Writes _ _ buf x fill-Writes size_fields-length,
    unmarshal_message-Reads _ (encoding x redeem_dur_bytes collateral_metas_bytes hal_meta_bytes)
        encoding-Reads short,
  )

  -- So a field that holds a Params has a codec.
  pub codec-Encodes :
      length (encoding x redeem_dur_bytes collateral_metas_bytes hal_meta_bytes) < 2 ^ 63
      → Encodes
          (codec rt duration_codec token_meta_codec false)
          x
          (encoding x redeem_dur_bytes collateral_metas_bytes hal_meta_bytes)
  codec-Encodes short = record {
    sized = size_fields-length;
    marshalled = marshal_whole-Writes _ fill-Writes size_fields-length;
    read =
        unmarshal_all-Reads _ (encoding x redeem_dur_bytes collateral_metas_bytes hal_meta_bytes)
          encoding-Reads short;
    short = short;
  }
