-- ===== src/Api/MsgMintHal/RoundTrip.antt =====
-- A MsgMintHal is read back as it was written, its unknown fields included.
use halborn.Prelude.{
  ◌<◌, ◌^◌, ◌≡◌, refl, arith, Bytes, [], ◌++◌, length, length-append, List, false, Option, some,
  ne→==_false,
}
use halborn.Wire.Result.{ok}
use halborn.Wire.Encoding.{Writes, string_field, >>-Writes, put_bytes-Writes}
use halborn.Wire.Reads.{Reads, Reads-append, Reads-string_field}
use halborn.Api.Runtime.{Runtime, Codec, appended, size_message}
use halborn.Api.Runtime.Writes.{
  IsRuntime, EncodesField, string_size-length, message_size-length, put_string-Writes,
  put_message-Writes, marshal_message-Writes,
}
use halborn.Api.Runtime.Reads.{
  Unknown, raw, AllUnknown, Reads-raw, Reads-message, unmarshal_message-Reads,
}
use halborn.Api.MsgMintHal.{MsgMintHal, new_msg_mint_hal}
use halborn.Api.MsgMintHal.Codec.{size_fields, fill, unmarshal_field, size, marshal, unmarshal}

-- The fields in the order of their numbers, and then the unknown ones.
unfoldable pub encoding : {Coin : Type 0} → MsgMintHal Coin → Bytes → Bytes
encoding x collateral_amount_bytes =
    string_field 0x0a x.creator ++ (collateral_amount_bytes ++ x.unknown_fields)

-- Texts and numbers are of the widths of their fields, the fields that are messages have the
-- bytes given, and the unknown fields are length-delimited.
pub record Fits {Coin : Type 0} (coin_codec : Codec Coin) (x : MsgMintHal Coin)
    (collateral_amount_bytes : Bytes) : Type 0 where
  pub creator_fits : length x.creator < 2 ^ 64
  pub collateral_amount_encoded :
      EncodesField coin_codec 0x12 x.collateral_amount collateral_amount_bytes
  pub unknowns : List Unknown
  pub unknowns_lem : x.unknown_fields ≡ raw unknowns
  pub all_unknown : AllUnknown 2 unknowns

module _ {Coin : Type 0} (rt : Runtime) (coin_codec : Codec Coin) (is_rt : IsRuntime rt)
    (x : MsgMintHal Coin) (collateral_amount_bytes : Bytes)
    (h : Fits coin_codec x collateral_amount_bytes) where
  size_fields-length : size_fields rt coin_codec x ≡ length (encoding x collateral_amount_bytes)
  unfolding size_fields encoding
  size_fields-length =
      let s1 = string_field 0x0a x.creator in
      let s2 = collateral_amount_bytes in
      omega (
        arith,
        string_size-length rt is_rt 0x0a x.creator h.creator_fits,
        message_size-length rt is_rt coin_codec 0x12 x.collateral_amount collateral_amount_bytes
            h.collateral_amount_encoded,
        length-append s1 (s2 ++ x.unknown_fields),
        length-append s2 x.unknown_fields,
      )

  fill-Writes : Writes (fill rt coin_codec x) (encoding x collateral_amount_bytes)
  unfolding fill encoding
  fill-Writes =
      >>-Writes
        (>>-Writes (put_bytes-Writes x.unknown_fields) (
          put_message-Writes rt is_rt coin_codec 0x12 x.collateral_amount collateral_amount_bytes
            h.collateral_amount_encoded))
        (put_string-Writes rt is_rt 0x0a x.creator h.creator_fits)

  unknowns-Reads :
      Reads
        (unmarshal_field rt coin_codec false)
        x.unknown_fields
        (record x { unknown_fields = [] })
        x
  unfolding unmarshal_field
  unknowns-Reads = rw (← h.unknowns_lem) at (
      Reads-raw (unmarshal_field rt coin_codec false) rt is_rt 2
        (λ u. record x { unknown_fields = u })
        (λ num wire_type pre c old above.
          rw (unmarshal_field, ne→==_false num 1 (omega arith), ne→==_false num 2 (omega arith))
            refl)
        h.unknowns h.all_unknown [])

  encoding-Reads :
      Reads
        (unmarshal_field rt coin_codec false)
        (encoding x collateral_amount_bytes)
        new_msg_mint_hal
        x
  unfolding encoding unmarshal_field
  encoding-Reads =
      Reads-append _ (string_field 0x0a x.creator) _
        (Reads-string_field _ 0x0a x.creator (λ s. record new_msg_mint_hal { creator = s })
          (omega arith) (omega arith) (omega arith) (λ pre c. refl))
        (Reads-append _ collateral_amount_bytes _
          (Reads-message _ coin_codec 0x12 x.collateral_amount collateral_amount_bytes
            (λ a. record new_msg_mint_hal { creator = x.creator; collateral_amount = a })
            (omega arith) (omega arith) (omega arith) (λ pre c. refl) h.collateral_amount_encoded)
          (unknowns-Reads))

  pub unmarshal-marshal_api_msg_mint_hal :
      length (encoding x collateral_amount_bytes) < 2 ^ 63
      → (buf : Option Bytes)
      → (size rt coin_codec (some x) ≡ length (encoding x collateral_amount_bytes))
        × (marshal rt coin_codec buf (some x)
            ≡ some (some (appended buf (encoding x collateral_amount_bytes))))
        × (unmarshal rt coin_codec false
              (some new_msg_mint_hal)
              (encoding x collateral_amount_bytes)
            ≡ ok (some x))
  unfolding size marshal unmarshal size_message
  unmarshal-marshal_api_msg_mint_hal short buf = (
    size_fields-length,
    marshal_message-Writes _ _ buf x fill-Writes size_fields-length,
    unmarshal_message-Reads _ (encoding x collateral_amount_bytes) encoding-Reads short,
  )
