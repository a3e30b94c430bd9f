-- ===== src/Api/TokenMeta/RoundTrip.antt =====
-- A TokenMeta is read back as it was written, its unknown fields included.
use halborn.Prelude.{
  ◌<◌, ◌^◌, ◌≡◌, refl, arith, Bytes, [], ◌++◌, length, length-append, List, false, Option, some,
  ne→==_false,
}
use halborn.Wire.Result.{ok}
use halborn.Wire.Encoding.{Writes, string_field, varint_field, >>-Writes, put_bytes-Writes}
use halborn.Wire.Reads.{
  Reads, Reads-append, Reads-string_field, Reads-varint_field, unmarshal_all-Reads,
}
use halborn.Api.Runtime.{Runtime, appended, size_message}
use halborn.Api.Runtime.Writes.{
  IsRuntime, Encodes, string_size-length, number_size-length, put_string-Writes, put_number-Writes,
  marshal_whole-Writes, marshal_message-Writes,
}
use halborn.Api.Runtime.Reads.{Unknown, raw, AllUnknown, Reads-raw, unmarshal_message-Reads}
use halborn.Api.TokenMeta.{TokenMeta, new_token_meta}
use halborn.Api.TokenMeta.Codec.{
  size_fields, fill, unmarshal_field, size, marshal, unmarshal, codec,
}

-- The fields in the order of their numbers, and then the unknown ones.
unfoldable pub encoding : TokenMeta → Bytes
encoding x =
    string_field 0x0a x.denom
    ++ (varint_field 0x10 x.decimals ++ (string_field 0x1a x.description ++ x.unknown_fields))

-- Texts and numbers are of the widths of their fields, and the unknown fields are length-delimited.
pub record Fits (x : TokenMeta) : Type 0 where
  pub denom_fits : length x.denom < 2 ^ 64
  pub decimals_fits : x.decimals < 2 ^ 32
  pub description_fits : length x.description < 2 ^ 64
  pub unknowns : List Unknown
  pub unknowns_lem : x.unknown_fields ≡ raw unknowns
  pub all_unknown : AllUnknown 3 unknowns

module _ (rt : Runtime) (is_rt : IsRuntime rt) (x : TokenMeta) (h : Fits x) where
  size_fields-length : size_fields rt x ≡ length (encoding x)
  unfolding size_fields encoding
  size_fields-length =
      let s1 = string_field 0x0a x.denom in
      let s2 = varint_field 0x10 x.decimals in
      let s3 = string_field 0x1a x.description in
      omega (
        arith,
        string_size-length rt is_rt 0x0a x.denom h.denom_fits,
        number_size-length rt is_rt 0x10 x.decimals (omega (arith, h.decimals_fits)),
        string_size-length rt is_rt 0x1a x.description h.description_fits,
        length-append s1 (s2 ++ (s3 ++ x.unknown_fields)),
        length-append s2 (s3 ++ x.unknown_fields),
        length-append s3 x.unknown_fields,
      )

  fill-Writes : Writes (fill rt x) (encoding x)
  unfolding fill encoding
  fill-Writes =
      >>-Writes
        (>>-Writes
          (>>-Writes (put_bytes-Writes x.unknown_fields)
            (put_string-Writes rt is_rt 0x1a x.description h.description_fits))
          (put_number-Writes rt is_rt 0x10 x.decimals (omega (arith, h.decimals_fits))))
        (put_string-Writes rt is_rt 0x0a x.denom h.denom_fits)

  unknowns-Reads :
      Reads (unmarshal_field rt false) x.unknown_fields (record x { unknown_fields = [] }) x
  unfolding unmarshal_field
  unknowns-Reads = rw (← h.unknowns_lem) at (
      Reads-raw (unmarshal_field rt false) rt is_rt 3 (λ u. record x { unknown_fields = u })
        (λ num wire_type pre c old above.
          rw
            (
              unmarshal_field,
              ne→==_false num 1 (omega arith),
              ne→==_false num 2 (omega arith),
              ne→==_false num 3 (omega arith),
            )
            refl)
        h.unknowns h.all_unknown [])

  encoding-Reads : Reads (unmarshal_field rt false) (encoding x) new_token_meta x
  unfolding encoding unmarshal_field
  encoding-Reads =
      Reads-append _ (string_field 0x0a x.denom) _
        (Reads-string_field _ 0x0a x.denom (λ s. record new_token_meta { denom = s }) (omega arith)
          (omega arith) (omega arith) (λ pre c. refl))
        (Reads-append _ (varint_field 0x10 x.decimals) _
          (Reads-varint_field _ 32 0x10 x.decimals
            (λ v. record new_token_meta { denom = x.denom; decimals = v }) h.decimals_fits
            (omega (arith, h.decimals_fits)) (omega arith) (omega arith) (omega arith)
            (λ pre c. refl))
          (Reads-append _ (string_field 0x1a x.description) _
            (Reads-string_field _ 0x1a x.description
              (λ s. record new_token_meta {
                denom = x.denom;
                decimals = x.decimals;
                description = s;
              })
              (omega arith) (omega arith) (omega arith) (λ pre c. refl))
            (unknowns-Reads)))

  pub unmarshal-marshal_api_token_meta :
      length (encoding x) < 2 ^ 63
      → (buf : Option Bytes)
      → (size rt (some x) ≡ length (encoding x))
        × (marshal rt buf (some x) ≡ some (some (appended buf (encoding x))))
        × (unmarshal rt false (some new_token_meta) (encoding x) ≡ ok (some x))
  unfolding size marshal unmarshal size_message
  unmarshal-marshal_api_token_meta short buf = (
    size_fields-length,
    marshal_message-Writes _ _ buf x fill-Writes size_fields-length,
    unmarshal_message-Reads _ (encoding x) encoding-Reads short,
  )

  -- So a field that holds a TokenMeta has a codec.
  pub codec-Encodes : length (encoding x) < 2 ^ 63 → Encodes (codec rt false) x (encoding x)
  codec-Encodes short = record {
    sized = size_fields-length;
    marshalled = marshal_whole-Writes _ fill-Writes size_fields-length;
    read = unmarshal_all-Reads _ (encoding x) encoding-Reads short;
    short = short;
  }
