-- ===== src/Api/MsgMintHalResponse/RoundTrip.antt =====
-- A MsgMintHalResponse is read back as it was written, its unknown fields included.
use halborn.Prelude.{
  ◌<◌, ◌^◌, ◌≡◌, refl, arith, Bytes, [], ◌++◌, length, length-append, List, false, Option, some,
  ne→==_false,
}
use halborn.Wire.Result.{ok}
use halborn.Wire.Encoding.{Writes, >>-Writes, put_bytes-Writes}
use halborn.Wire.Reads.{Reads, Reads-append}
use halborn.Api.Runtime.{Runtime, Codec, appended, size_message}
use halborn.Api.Runtime.Writes.{
  IsRuntime, EncodesField, message_size-length, put_message-Writes, marshal_message-Writes,
}
use halborn.Api.Runtime.Reads.{
  Unknown, raw, AllUnknown, Reads-raw, Reads-message, unmarshal_message-Reads,
}
use halborn.Api.MsgMintHalResponse.{MsgMintHalResponse, new_msg_mint_hal_response}
use halborn.Api.MsgMintHalResponse.Codec.{
  size_fields, fill, unmarshal_field, size, marshal, unmarshal,
}

-- The fields in the order of their numbers, and then the unknown ones.
unfoldable pub encoding : {Coin : Type 0} → MsgMintHalResponse Coin → Bytes → Bytes
encoding x minted_amount_bytes = minted_amount_bytes ++ x.unknown_fields

-- Texts and numbers are of the widths of their fields, the fields that are messages have the
-- bytes given, and the unknown fields are length-delimited.
pub record Fits {Coin : Type 0} (coin_codec : Codec Coin) (x : MsgMintHalResponse Coin)
    (minted_amount_bytes : Bytes) : Type 0 where
  pub minted_amount_encoded : EncodesField coin_codec 0x0a x.minted_amount minted_amount_bytes
  pub unknowns : List Unknown
  pub unknowns_lem : x.unknown_fields ≡ raw unknowns
  pub all_unknown : AllUnknown 1 unknowns

module _ {Coin : Type 0} (rt : Runtime) (coin_codec : Codec Coin) (is_rt : IsRuntime rt)
    (x : MsgMintHalResponse Coin) (minted_amount_bytes : Bytes)
    (h : Fits coin_codec x minted_amount_bytes) where
  size_fields-length : size_fields rt coin_codec x ≡ length (encoding x minted_amount_bytes)
  unfolding size_fields encoding
  size_fields-length =
      let s1 = minted_amount_bytes in
      omega (
        arith,
        message_size-length rt is_rt coin_codec 0x0a x.minted_amount minted_amount_bytes
            h.minted_amount_encoded,
        length-append s1 x.unknown_fields,
      )

  fill-Writes : Writes (fill rt coin_codec x) (encoding x minted_amount_bytes)
  unfolding fill encoding
  fill-Writes = >>-Writes (put_bytes-Writes x.unknown_fields) (
      put_message-Writes rt is_rt coin_codec 0x0a x.minted_amount minted_amount_bytes
        h.minted_amount_encoded)

  unknowns-Reads :
      Reads
        (unmarshal_field rt coin_codec false)
        x.unknown_fields
        (record x { unknown_fields = [] })
        x
  unfolding unmarshal_field
  unknowns-Reads = rw (← h.unknowns_lem) at (
      Reads-raw (unmarshal_field rt coin_codec false) rt is_rt 1
        (λ u. record x { unknown_fields = u })
        (λ num wire_type pre c old above.
          rw (unmarshal_field, ne→==_false num 1 (omega arith)) refl)
        h.unknowns h.all_unknown [])

  encoding-Reads :
      Reads
        (unmarshal_field rt coin_codec false)
        (encoding x minted_amount_bytes)
        new_msg_mint_hal_response
        x
  unfolding encoding unmarshal_field
  encoding-Reads =
      Reads-append _ minted_amount_bytes _
        (Reads-message _ coin_codec 0x0a x.minted_amount minted_amount_bytes
          (λ a. record new_msg_mint_hal_response { minted_amount = a }) (omega arith) (omega arith)
          (omega arith) (λ pre c. refl) h.minted_amount_encoded)
        (unknowns-Reads)

  pub unmarshal-marshal_api_msg_mint_hal_response :
      length (encoding x minted_amount_bytes) < 2 ^ 63
      → (buf : Option Bytes)
      → (size rt coin_codec (some x) ≡ length (encoding x minted_amount_bytes))
        × (marshal rt coin_codec buf (some x)
            ≡ some (some (appended buf (encoding x minted_amount_bytes))))
        × (unmarshal rt coin_codec false
              (some new_msg_mint_hal_response)
              (encoding x minted_amount_bytes)
            ≡ ok (some x))
  unfolding size marshal unmarshal size_message
  unmarshal-marshal_api_msg_mint_hal_response short buf = (
    size_fields-length,
    marshal_message-Writes _ _ buf x fill-Writes size_fields-length,
    unmarshal_message-Reads _ (encoding x minted_amount_bytes) encoding-Reads short,
  )
