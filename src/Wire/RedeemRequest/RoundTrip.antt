-- ===== src/Wire/RedeemRequest/RoundTrip.antt =====
-- A stored redeem request is read back as it was written.
use halborn.Prelude.{◌<◌, ◌^◌, ◌≡◌, refl, arith, Bytes, ◌++◌, length, length-append, some}
use halborn.Types.Records.{RedeemRequest, no_request}
use halborn.Wire.Result.{ok}
use halborn.Wire.Gogo.{Gogo, IsCodec}
use halborn.Wire.Encoding.{
  bytes_field, string_field, >>-Writes, put_string_field-Writes, put_bytes_field-Writes,
  string_field_size-length, bytes_field_size-length, marshal_sized-Writes,
}
use halborn.Wire.Reads.{
  Reads, Reads-append, Reads-string_field, Reads-bytes_field, unmarshal_all-Reads,
}
use halborn.Wire.RedeemRequest.{size, marshal_to_sized_buffer, marshal, unmarshal_field, unmarshal}

module _ (g : Gogo) where
  -- The bytes of a request whose time is marshalled as `time`.
  unfoldable pub encoding : RedeemRequest → Bytes → Bytes
  encoding r time =
      string_field 0x0a r.account
      ++ (bytes_field 0x12 (g.coin_marshal r.collateral) ++ bytes_field 0x1a time)

  -- The lengths of the fields are those of a uint64.
  pub record Fits (r : RedeemRequest) (time : Bytes) : Type 0 where
    pub account_fits : length r.account < 2 ^ 64
    pub coin_fits : length (g.coin_marshal r.collateral) < 2 ^ 64
    pub time_fits : length time < 2 ^ 64

  module _ (r : RedeemRequest) (time : Bytes)
      (timed : g.time_marshal r.completiontime ≡ some time) where
    size-length : Fits r time → size g r ≡ length (encoding r time)
    unfolding size encoding
    size-length h =
        let a = string_field 0x0a r.account in
        let b = bytes_field 0x12 (g.coin_marshal r.collateral) in
        let c = bytes_field 0x1a time in
        rw timed (
          omega (
            arith,
            string_field_size-length 0x0a r.account h.account_fits,
            bytes_field_size-length 0x12 (g.coin_marshal r.collateral) h.coin_fits,
            bytes_field_size-length 0x1a time h.time_fits,
            length-append a (b ++ c),
            length-append b c,
          ))

    pub marshal-encoding : Fits r time → marshal g r ≡ some (encoding r time)
    unfolding marshal marshal_to_sized_buffer
    marshal-encoding h =
        rw (marshal, marshal_to_sized_buffer, timed)
          (marshal_sized-Writes (size g r)
            (unfold encoding in
              >>-Writes
                (>>-Writes (put_bytes_field-Writes 0x1a time h.time_fits)
                  (put_bytes_field-Writes 0x12 (g.coin_marshal r.collateral) h.coin_fits))
                (put_string_field-Writes 0x0a r.account h.account_fits))
            (size-length h))

    encoding-Reads : IsCodec g → Reads (unmarshal_field g) (encoding r time) no_request r
    unfolding encoding unmarshal_field
    encoding-Reads codec =
        Reads-append _ (string_field 0x0a r.account) _
          (Reads-string_field _ 0x0a r.account (λ s. record no_request { account = s })
            (omega arith) (omega arith) (omega arith) (λ pre c. refl))
          (Reads-append _ (bytes_field 0x12 (g.coin_marshal r.collateral)) _
            (Reads-bytes_field _ 0x12 (g.coin_marshal r.collateral)
              {m' = record no_request { account = r.account; collateral = r.collateral }} _
              (omega arith) (omega arith) (omega arith) (λ pre c. refl)
              (rw (codec.coin-round r.collateral)))
            (Reads-bytes_field _ 0x1a time {m' = r} _ (omega arith) (omega arith) (omega arith)
              (λ pre c. refl) (rw (codec.time-round r.completiontime time timed))))

    -- RedeemRequest.Marshal succeeds on a request whose time can be marshalled and whose fields
    -- have lengths of a uint64, and RedeemRequest.Unmarshal inverts it where the bytes are fewer
    -- than 2 ^ 63.
    pub unmarshal-marshal_request :
        IsCodec g
        → Fits r time
        → length (encoding r time) < 2 ^ 63
        → (bs : Bytes) × (marshal g r ≡ some bs) × (unmarshal g bs ≡ ok r)
    unfolding unmarshal
    unmarshal-marshal_request codec h short = (
      encoding r time,
      marshal-encoding h,
      unmarshal_all-Reads (unmarshal_field g) (encoding r time) (encoding-Reads codec) short,
    )
