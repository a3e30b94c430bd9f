-- ===== src/Api/MsgRedeemCollateralResponse/RoundTrip.antt =====
-- A MsgRedeemCollateralResponse is read back as it was written, its unknown fields included.
use halborn.Prelude.{
  ◌<◌, ◌^◌, ◌≡◌, refl, arith, Bytes, [], ◌++◌, length, length-append, List, false, Option, some,
  ne→==_false,
}
use halborn.Wire.Result.{ok}
use halborn.Wire.Encoding.{Writes, >>-Writes, put_bytes-Writes}
use halborn.Wire.Reads.{Reads, Reads-append}
use halborn.Api.Runtime.{Runtime, Codec, appended, size_message}
use halborn.Api.Runtime.Writes.{
  IsRuntime, EncodesField, message_size-length, put_message-Writes, marshal_message-Writes,
}
use halborn.Api.Runtime.Reads.{
  Unknown, raw, AllUnknown, Reads-raw, Reads-message, unmarshal_message-Reads,
}
use halborn.Api.MsgRedeemCollateralResponse.{
  MsgRedeemCollateralResponse, new_msg_redeem_collateral_response,
}
use halborn.Api.MsgRedeemCollateralResponse.Codec.{
  size_fields, fill, unmarshal_field, size, marshal, unmarshal,
}

-- The fields in the order of their numbers, and then the unknown ones.
unfoldable pub encoding :
    {Coin Timestamp : Type 0} → MsgRedeemCollateralResponse Coin Timestamp → Bytes → Bytes → Bytes
encoding x burned_amount_bytes completion_time_bytes =
    burned_amount_bytes ++ (completion_time_bytes ++ x.unknown_fields)

-- Texts and numbers are of the widths of their fields, the fields that are messages have the
-- bytes given, and the unknown fields are length-delimited.
pub record Fits {Coin Timestamp : Type 0} (coin_codec : Codec Coin)
    (timestamp_codec : Codec Timestamp) (x : MsgRedeemCollateralResponse Coin Timestamp)
    (burned_amount_bytes completion_time_bytes : Bytes) : Type 0 where
  pub burned_amount_encoded : EncodesField coin_codec 0x0a x.burned_amount burned_amount_bytes
  pub completion_time_encoded :
      EncodesField timestamp_codec 0x12 x.completion_time completion_time_bytes
  pub unknowns : List Unknown
  pub unknowns_lem : x.unknown_fields ≡ raw unknowns
  pub all_unknown : AllUnknown 2 unknowns

module _ {Coin Timestamp : Type 0} (rt : Runtime) (coin_codec : Codec Coin)
    (timestamp_codec : Codec Timestamp) (is_rt : IsRuntime rt)
    (x : MsgRedeemCollateralResponse Coin Timestamp)
    (burned_amount_bytes completion_time_bytes : Bytes)
    (h : Fits coin_codec timestamp_codec x burned_amount_bytes completion_time_bytes) where
  size_fields-length :
      size_fields rt coin_codec timestamp_codec x
      ≡ length (encoding x burned_amount_bytes completion_time_bytes)
  unfolding size_fields encoding
  size_fields-length =
      let s1 = burned_amount_bytes in
      let s2 = completion_time_bytes in
      omega (
        arith,
        message_size-length rt is_rt coin_codec 0x0a x.burned_amount burned_amount_bytes
            h.burned_amount_encoded,
        message_size-length rt is_rt timestamp_codec 0x12 x.completion_time completion_time_bytes
            h.completion_time_encoded,
        length-append s1 (s2 ++ x.unknown_fields),
        length-append s2 x.unknown_fields,
      )

  fill-Writes :
      Writes
        (fill rt coin_codec timestamp_codec x)
        (encoding x burned_amount_bytes completion_time_bytes)
  unfolding fill encoding
  fill-Writes =
      >>-Writes
        (>>-Writes (put_bytes-Writes x.unknown_fields) (
          put_message-Writes rt is_rt timestamp_codec 0x12 x.completion_time completion_time_bytes
            h.completion_time_encoded))
        (put_message-Writes rt is_rt coin_codec 0x0a x.burned_amount burned_amount_bytes
          h.burned_amount_encoded)

  unknowns-Reads :
      Reads
        (unmarshal_field rt coin_codec timestamp_codec false)
        x.unknown_fields
        (record x { unknown_fields = [] })
        x
  unfolding unmarshal_field
  unknowns-Reads = rw (← h.unknowns_lem) at (
      Reads-raw (unmarshal_field rt coin_codec timestamp_codec false) rt is_rt 2
        (λ u. record x { unknown_fields = u })
        (λ num wire_type pre c old above.
          rw (unmarshal_field, ne→==_false num 1 (omega arith), ne→==_false num 2 (omega arith))
            refl)
        h.unknowns h.all_unknown [])

  encoding-Reads :
      Reads
        (unmarshal_field rt coin_codec timestamp_codec false)
        (encoding x burned_amount_bytes completion_time_bytes)
        new_msg_redeem_collateral_response
        x
  unfolding encoding unmarshal_field
  encoding-Reads =
      Reads-append _ burned_amount_bytes _
        (Reads-message _ coin_codec 0x0a x.burned_amount burned_amount_bytes
          (λ a. record new_msg_redeem_collateral_response { burned_amount = a }) (omega arith)
          (omega arith) (omega arith) (λ pre c. refl) h.burned_amount_encoded)
        (Reads-append _ completion_time_bytes _
          (Reads-message _ timestamp_codec 0x12 x.completion_time completion_time_bytes
            (λ a. record new_msg_redeem_collateral_response {
              burned_amount = x.burned_amount;
              completion_time = a;
            })
            (omega arith) (omega arith) (omega arith) (λ pre c. refl) h.completion_time_encoded)
          (unknowns-Reads))

  pub unmarshal-marshal_api_msg_redeem_collateral_response :
      length (encoding x burned_amount_bytes completion_time_bytes) < 2 ^ 63
      → (buf : Option Bytes)
      → (size rt coin_codec timestamp_codec (some x)
          ≡ length (encoding x burned_amount_bytes completion_time_bytes))
        × (marshal rt coin_codec timestamp_codec buf (some x)
            ≡ some (some (appended buf (encoding x burned_amount_bytes completion_time_bytes))))
        × (unmarshal rt coin_codec timestamp_codec false
              (some new_msg_redeem_collateral_response)
              (encoding x burned_amount_bytes completion_time_bytes)
            ≡ ok (some x))
  unfolding size marshal unmarshal size_message
  unmarshal-marshal_api_msg_redeem_collateral_response short buf = (
    size_fields-length,
    marshal_message-Writes _ _ buf x fill-Writes size_fields-length,
    unmarshal_message-Reads _ (encoding x burned_amount_bytes completion_time_bytes) encoding-Reads
        short,
  )
