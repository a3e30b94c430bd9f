-- ===== src/Api/GenesisState/RoundTrip.antt =====
-- A GenesisState is read back as it was written, its unknown fields included.
use halborn.Prelude.{
  ◌<◌, ◌^◌, ◌≡◌, refl, arith, Bytes, [], ◌++◌, length, length-append, List, false, Option, some,
  ne→==_false,
}
use halborn.Wire.Result.{ok}
use halborn.Wire.Encoding.{Writes, >>-Writes, put_bytes-Writes}
use halborn.Wire.Reads.{Reads, Reads-append}
use halborn.Api.Runtime.{Runtime, Codec, appended, size_message}
use halborn.Api.Runtime.Writes.{
  IsRuntime, EncodesField, message_size-length, put_message-Writes, marshal_message-Writes,
}
use halborn.Api.Runtime.Reads.{
  Unknown, raw, AllUnknown, Reads-raw, Reads-message, unmarshal_message-Reads,
}
use halborn.Api.Params.{Params}
use halborn.Api.GenesisState.{GenesisState, new_genesis_state}
use halborn.Api.GenesisState.Codec.{size_fields, fill, unmarshal_field, size, marshal, unmarshal}

-- The fields in the order of their numbers, and then the unknown ones.
unfoldable pub encoding : {Duration : Type 0} → GenesisState Duration → Bytes → Bytes
encoding x params_bytes = params_bytes ++ x.unknown_fields

-- Texts and numbers are of the widths of their fields, the fields that are messages have the
-- bytes given, and the unknown fields are length-delimited.
pub record Fits {Duration : Type 0} (params_codec : Codec (Params Duration))
    (x : GenesisState Duration) (params_bytes : Bytes) : Type 0 where
  pub params_encoded : EncodesField params_codec 0x0a x.params params_bytes
  pub unknowns : List Unknown
  pub unknowns_lem : x.unknown_fields ≡ raw unknowns
  pub all_unknown : AllUnknown 1 unknowns

module _ {Duration : Type 0} (rt : Runtime) (params_codec : Codec (Params Duration))
    (is_rt : IsRuntime rt) (x : GenesisState Duration) (params_bytes : Bytes)
    (h : Fits params_codec x params_bytes) where
  size_fields-length : size_fields rt params_codec x ≡ length (encoding x params_bytes)
  unfolding size_fields encoding
  size_fields-length =
      let s1 = params_bytes in
      omega (
        arith,
        message_size-length rt is_rt params_codec 0x0a x.params params_bytes h.params_encoded,
        length-append s1 x.unknown_fields,
      )

  fill-Writes : Writes (fill rt params_codec x) (encoding x params_bytes)
  unfolding fill encoding
  fill-Writes =
      >>-Writes (put_bytes-Writes x.unknown_fields)
        (put_message-Writes rt is_rt params_codec 0x0a x.params params_bytes h.params_encoded)

  unknowns-Reads :
      Reads
        (unmarshal_field rt params_codec false)
        x.unknown_fields
        (record x { unknown_fields = [] })
        x
  unfolding unmarshal_field
  unknowns-Reads = rw (← h.unknowns_lem) at (
      Reads-raw (unmarshal_field rt params_codec false) rt is_rt 1
        (λ u. record x { unknown_fields = u })
        (λ num wire_type pre c old above.
          rw (unmarshal_field, ne→==_false num 1 (omega arith)) refl)
        h.unknowns h.all_unknown [])

  encoding-Reads :
      Reads (unmarshal_field rt params_codec false) (encoding x params_bytes) new_genesis_state x
  unfolding encoding unmarshal_field
  encoding-Reads =
      Reads-append _ params_bytes _
        (Reads-message _ params_codec 0x0a x.params params_bytes
          (λ a. record new_genesis_state { params = a }) (omega arith) (omega arith) (omega arith)
          (λ pre c. refl) h.params_encoded)
        (unknowns-Reads)

  pub unmarshal-marshal_api_genesis_state :
      length (encoding x params_bytes) < 2 ^ 63
      → (buf : Option Bytes)
      → (size rt params_codec (some x) ≡ length (encoding x params_bytes))
        × (marshal rt params_codec buf (some x)
            ≡ some (some (appended buf (encoding x params_bytes))))
        × (unmarshal rt params_codec false (some new_genesis_state) (encoding x params_bytes)
            ≡ ok (some x))
  unfolding size marshal unmarshal size_message
  unmarshal-marshal_api_genesis_state short buf = (
    size_fields-length,
    marshal_message-Writes _ _ buf x fill-Writes size_fields-length,
    unmarshal_message-Reads _ (encoding x params_bytes) encoding-Reads short,
  )
