-- ===== src/Api/RedeemRequest/RoundTrip.antt =====
-- A RedeemRequest is read back as it was written, its unknown fields included.
use halborn.Prelude.{
  ◌<◌, ◌^◌, ◌≡◌, refl, arith, Bytes, [], ◌++◌, length, length-append, List, false, Option, some,
  ne→==_false,
}
use halborn.Wire.Result.{ok}
use halborn.Wire.Encoding.{Writes, string_field, >>-Writes, put_bytes-Writes}
use halborn.Wire.Reads.{Reads, Reads-append, Reads-string_field}
use halborn.Api.Runtime.{Runtime, Codec, appended, size_message}
use halborn.Api.Runtime.Writes.{
  IsRuntime, EncodesField, string_size-length, message_size-length, put_string-Writes,
  put_message-Writes, marshal_message-Writes,
}
use halborn.Api.Runtime.Reads.{
  Unknown, raw, AllUnknown, Reads-raw, Reads-message, unmarshal_message-Reads,
}
use halborn.Api.RedeemRequest.{RedeemRequest, new_redeem_request}
use halborn.Api.RedeemRequest.Codec.{size_fields, fill, unmarshal_field, size, marshal, unmarshal}

-- The fields in the order of their numbers, and then the unknown ones.
unfoldable pub encoding :
    {Coin Timestamp : Type 0} → RedeemRequest Coin Timestamp → Bytes → Bytes → Bytes
encoding x collateral_bytes completiontime_bytes =
    string_field 0x0a x.account ++ (collateral_bytes ++ (completiontime_bytes ++ x.unknown_fields))

-- Texts and numbers are of the widths of their fields, the fields that are messages have the
-- bytes given, and the unknown fields are length-delimited.
pub record Fits {Coin Timestamp : Type 0} (coin_codec : Codec Coin)
    (timestamp_codec : Codec Timestamp) (x : RedeemRequest Coin Timestamp)
    (collateral_bytes completiontime_bytes : Bytes) : Type 0 where
  pub account_fits : length x.account < 2 ^ 64
  pub collateral_encoded : EncodesField coin_codec 0x12 x.collateral collateral_bytes
  pub completiontime_encoded :
      EncodesField timestamp_codec 0x1a x.completiontime completiontime_bytes
  pub unknowns : List Unknown
  pub unknowns_lem : x.unknown_fields ≡ raw unknowns
  pub all_unknown : AllUnknown 3 unknowns

module _ {Coin Timestamp : Type 0} (rt : Runtime) (coin_codec : Codec Coin)
    (timestamp_codec : Codec Timestamp) (is_rt : IsRuntime rt) (x : RedeemRequest Coin Timestamp)
    (collateral_bytes completiontime_bytes : Bytes)
    (h : Fits coin_codec timestamp_codec x collateral_bytes completiontime_bytes) where
  size_fields-length :
      size_fields rt coin_codec timestamp_codec x
      ≡ length (encoding x collateral_bytes completiontime_bytes)
  unfolding size_fields encoding
  size_fields-length =
      let s1 = string_field 0x0a x.account in
      let s2 = collateral_bytes in
      let s3 = completiontime_bytes in
      omega (
        arith,
        string_size-length rt is_rt 0x0a x.account h.account_fits,
        message_size-length rt is_rt coin_codec 0x12 x.collateral collateral_bytes
            h.collateral_encoded,
        message_size-length rt is_rt timestamp_codec 0x1a x.completiontime completiontime_bytes
            h.completiontime_encoded,
        length-append s1 (s2 ++ (s3 ++ x.unknown_fields)),
        length-append s2 (s3 ++ x.unknown_fields),
        length-append s3 x.unknown_fields,
      )

  fill-Writes :
      Writes
        (fill rt coin_codec timestamp_codec x)
        (encoding x collateral_bytes completiontime_bytes)
  unfolding fill encoding
  fill-Writes =
      >>-Writes
        (>>-Writes
          (>>-Writes (put_bytes-Writes x.unknown_fields) (
            put_message-Writes rt is_rt timestamp_codec 0x1a x.completiontime completiontime_bytes
              h.completiontime_encoded))
          (put_message-Writes rt is_rt coin_codec 0x12 x.collateral collateral_bytes
            h.collateral_encoded))
        (put_string-Writes rt is_rt 0x0a x.account h.account_fits)

  unknowns-Reads :
      Reads
        (unmarshal_field rt coin_codec timestamp_codec false)
        x.unknown_fields
        (record x { unknown_fields = [] })
        x
  unfolding unmarshal_field
  unknowns-Reads = rw (← h.unknowns_lem) at (
      Reads-raw (unmarshal_field rt coin_codec timestamp_codec false) rt is_rt 3
        (λ u. record x { unknown_fields = u })
        (λ num wire_type pre c old above.
          rw
            (
              unmarshal_field,
              ne→==_false num 1 (omega arith),
              ne→==_false num 2 (omega arith),
              ne→==_false num 3 (omega arith),
            )
            refl)
        h.unknowns h.all_unknown [])

  encoding-Reads :
      Reads
        (unmarshal_field rt coin_codec timestamp_codec false)
        (encoding x collateral_bytes completiontime_bytes)
        new_redeem_request
        x
  unfolding encoding unmarshal_field
  encoding-Reads =
      Reads-append _ (string_field 0x0a x.account) _
        (Reads-string_field _ 0x0a x.account (λ s. record new_redeem_request { account = s })
          (omega arith) (omega arith) (omega arith) (λ pre c. refl))
        (Reads-append _ collateral_bytes _
          (Reads-message _ coin_codec 0x12 x.collateral collateral_bytes
            (λ a. record new_redeem_request { account = x.account; collateral = a }) (omega arith)
            (omega arith) (omega arith) (λ pre c. refl) h.collateral_encoded)
          (Reads-append _ completiontime_bytes _
            (Reads-message _ timestamp_codec 0x1a x.completiontime completiontime_bytes
              (λ a. record new_redeem_request {
                account = x.account;
                collateral = x.collateral;
                completiontime = a;
              })
              (omega arith) (omega arith) (omega arith) (λ pre c. refl) h.completiontime_encoded)
            (unknowns-Reads)))

  pub unmarshal-marshal_api_redeem_request :
      length (encoding x collateral_bytes completiontime_bytes) < 2 ^ 63
      → (buf : Option Bytes)
      → (size rt coin_codec timestamp_codec (some x)
          ≡ length (encoding x collateral_bytes completiontime_bytes))
        × (marshal rt coin_codec timestamp_codec buf (some x)
            ≡ some (some (appended buf (encoding x collateral_bytes completiontime_bytes))))
        × (unmarshal rt coin_codec timestamp_codec false
              (some new_redeem_request)
              (encoding x collateral_bytes completiontime_bytes)
            ≡ ok (some x))
  unfolding size marshal unmarshal size_message
  unmarshal-marshal_api_redeem_request short buf = (
    size_fields-length,
    marshal_message-Writes _ _ buf x fill-Writes size_fields-length,
    unmarshal_message-Reads _ (encoding x collateral_bytes completiontime_bytes) encoding-Reads
        short,
  )
