-- ===== src/Api/MsgUpdateParams/RoundTrip.antt =====
-- A MsgUpdateParams is read back as it was written, its unknown fields included.
use halborn.Prelude.{
  ◌<◌, ◌^◌, ◌≡◌, refl, arith, Bytes, [], ◌++◌, length, length-append, List, false, Option, some,
  ne→==_false,
}
use halborn.Wire.Result.{ok}
use halborn.Wire.Encoding.{Writes, string_field, >>-Writes, put_bytes-Writes}
use halborn.Wire.Reads.{Reads, Reads-append, Reads-string_field}
use halborn.Api.Runtime.{Runtime, Codec, appended, size_message}
use halborn.Api.Runtime.Writes.{
  IsRuntime, EncodesField, string_size-length, message_size-length, put_string-Writes,
  put_message-Writes, marshal_message-Writes,
}
use halborn.Api.Runtime.Reads.{
  Unknown, raw, AllUnknown, Reads-raw, Reads-message, unmarshal_message-Reads,
}
use halborn.Api.Params.{Params}
use halborn.Api.MsgUpdateParams.{MsgUpdateParams, new_msg_update_params}
use halborn.Api.MsgUpdateParams.Codec.{size_fields, fill, unmarshal_field, size, marshal, unmarshal}

-- The fields in the order of their numbers, and then the unknown ones.
unfoldable pub encoding : {Duration : Type 0} → MsgUpdateParams Duration → Bytes → Bytes
encoding x params_bytes = string_field 0x0a x.authority ++ (params_bytes ++ x.unknown_fields)

-- Texts and numbers are of the widths of their fields, the fields that are messages have the
-- bytes given, and the unknown fields are length-delimited.
pub record Fits {Duration : Type 0} (params_codec : Codec (Params Duration))
    (x : MsgUpdateParams Duration) (params_bytes : Bytes) : Type 0 where
  pub authority_fits : length x.authority < 2 ^ 64
  pub params_encoded : EncodesField params_codec 0x12 x.params params_bytes
  pub unknowns : List Unknown
  pub unknowns_lem : x.unknown_fields ≡ raw unknowns
  pub all_unknown : AllUnknown 2 unknowns

module _ {Duration : Type 0} (rt : Runtime) (params_codec : Codec (Params Duration))
    (is_rt : IsRuntime rt) (x : MsgUpdateParams Duration) (params_bytes : Bytes)
    (h : Fits params_codec x params_bytes) where
  size_fields-length : size_fields rt params_codec x ≡ length (encoding x params_bytes)
  unfolding size_fields encoding
  size_fields-length =
      let s1 = string_field 0x0a x.authority in
      let s2 = params_bytes in
      omega (
        arith,
        string_size-length rt is_rt 0x0a x.authority h.authority_fits,
        message_size-length rt is_rt params_codec 0x12 x.params params_bytes h.params_encoded,
        length-append s1 (s2 ++ x.unknown_fields),
        length-append s2 x.unknown_fields,
      )

  fill-Writes : Writes (fill rt params_codec x) (encoding x params_bytes)
  unfolding fill encoding
  fill-Writes =
      >>-Writes
        (>>-Writes (put_bytes-Writes x.unknown_fields)
          (put_message-Writes rt is_rt params_codec 0x12 x.params params_bytes h.params_encoded))
        (put_string-Writes rt is_rt 0x0a x.authority h.authority_fits)

  unknowns-Reads :
      Reads
        (unmarshal_field rt params_codec false)
        x.unknown_fields
        (record x { unknown_fields = [] })
        x
  unfolding unmarshal_field
  unknowns-Reads = rw (← h.unknowns_lem) at (
      Reads-raw (unmarshal_field rt params_codec false) rt is_rt 2
        (λ u. record x { unknown_fields = u })
        (λ num wire_type pre c old above.
          rw (unmarshal_field, ne→==_false num 1 (omega arith), ne→==_false num 2 (omega arith))
            refl)
        h.unknowns h.all_unknown [])

  encoding-Reads :
      Reads
        (unmarshal_field rt params_codec false)
        (encoding x params_bytes)
        new_msg_update_params
        x
  unfolding encoding unmarshal_field
  encoding-Reads =
      Reads-append _ (string_field 0x0a x.authority) _
        (Reads-string_field _ 0x0a x.authority (λ s. record new_msg_update_params { authority = s })
          (omega arith) (omega arith) (omega arith) (λ pre c. refl))
        (Reads-append _ params_bytes _
          (Reads-message _ params_codec 0x12 x.params params_bytes
            (λ a. record new_msg_update_params { authority = x.authority; params = a })
            (omega arith) (omega arith) (omega arith) (λ pre c. refl) h.params_encoded)
          (unknowns-Reads))

  pub unmarshal-marshal_api_msg_update_params :
      length (encoding x params_bytes) < 2 ^ 63
      → (buf : Option Bytes)
      → (size rt params_codec (some x) ≡ length (encoding x params_bytes))
        × (marshal rt params_codec buf (some x)
            ≡ some (some (appended buf (encoding x params_bytes))))
        × (unmarshal rt params_codec false (some new_msg_update_params) (encoding x params_bytes)
            ≡ ok (some x))
  unfolding size marshal unmarshal size_message
  unmarshal-marshal_api_msg_update_params short buf = (
    size_fields-length,
    marshal_message-Writes _ _ buf x fill-Writes size_fields-length,
    unmarshal_message-Reads _ (encoding x params_bytes) encoding-Reads short,
  )
