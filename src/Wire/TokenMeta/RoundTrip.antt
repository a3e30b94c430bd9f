-- ===== src/Wire/TokenMeta/RoundTrip.antt =====
-- The metadata of a token is read back as it was written.
use halborn.Prelude.{◌<◌, ◌^◌, ◌≡◌, refl, arith, Bytes, [], ◌++◌, length, length-append}
use halborn.Types.Params.{TokenMeta, no_token_meta}
use halborn.Wire.Result.{ok}
use halborn.Wire.Encoding.{
  Writes, string_field, varint_field, >>-Writes, put_string_field-Writes, put_varint_field-Writes,
  string_field_size-length, varint_field_size-length,
}
use halborn.Wire.Reads.{
  Reads, Reads-append, Reads-string_field, Reads-varint_field, unmarshal_all-Reads,
}
use halborn.Wire.TokenMeta.{size, marshal_to_sized_buffer, unmarshal_field, unmarshal}

unfoldable pub encoding : TokenMeta → Bytes
encoding t =
    string_field 0x0a t.denom ++ (varint_field 0x10 t.decimals ++ string_field 0x1a t.description)

-- The lengths are those of a uint64, and the number of decimals is a uint32.
pub record Fits (t : TokenMeta) : Type 0 where
  pub denom_fits : length t.denom < 2 ^ 64
  pub decimals_fits : t.decimals < 2 ^ 32
  pub description_fits : length t.description < 2 ^ 64

pub size-length : (t : TokenMeta) → Fits t → size t ≡ length (encoding t)
unfolding size encoding
size-length t h =
    let a = string_field 0x0a t.denom in
    let b = varint_field 0x10 t.decimals in
    let c = string_field 0x1a t.description in
    omega (
      arith,
      string_field_size-length 0x0a t.denom h.denom_fits,
      varint_field_size-length 0x10 t.decimals (omega (arith, h.decimals_fits)),
      string_field_size-length 0x1a t.description h.description_fits,
      length-append a (b ++ c),
      length-append b c,
    )

pub marshal_to_sized_buffer-Writes :
    (t : TokenMeta) → Fits t → Writes (marshal_to_sized_buffer t) (encoding t)
unfolding marshal_to_sized_buffer encoding
marshal_to_sized_buffer-Writes t h =
    >>-Writes
      (>>-Writes (put_string_field-Writes 0x1a t.description h.description_fits)
        (put_varint_field-Writes 0x10 t.decimals (omega (arith, h.decimals_fits))))
      (put_string_field-Writes 0x0a t.denom h.denom_fits)

encoding-Reads : (t : TokenMeta) → Fits t → Reads unmarshal_field (encoding t) no_token_meta t
unfolding encoding unmarshal_field
encoding-Reads t h =
    Reads-append _ (string_field 0x0a t.denom) _
      (Reads-string_field _ 0x0a t.denom (λ s. record no_token_meta { denom = s }) (omega arith)
        (omega arith) (omega arith) (λ pre c. refl))
      (Reads-append _ (varint_field 0x10 t.decimals) _
        (Reads-varint_field _ 32 0x10 t.decimals (λ v. record t { decimals = v; description = [] })
          h.decimals_fits (omega (arith, h.decimals_fits)) (omega arith) (omega arith) (omega arith)
          (λ pre c. refl))
        (Reads-string_field _ 0x1a t.description (λ s. record t { description = s }) (omega arith)
          (omega arith) (omega arith) (λ pre c. refl)))

-- Read into an empty `TokenMeta`, the bytes give back the value that was written.
pub unmarshal-encoding :
    (t : TokenMeta)
    → Fits t
    → length (encoding t) < 2 ^ 63
    → unmarshal no_token_meta (encoding t) ≡ ok t
unfolding unmarshal
unmarshal-encoding t h short =
    unmarshal_all-Reads unmarshal_field (encoding t) (encoding-Reads t h) short
