-- ===== src/Api/RedeemRequest/Codec.antt =====
-- The codec of RedeemRequest: the functions of ProtoMethods in api/halbornctf/hal/redeem_request.pulsar.go.
use halborn.Prelude.{ℕ, ◌+◌, Bytes, Bool, ◌++◌, ◌==◌, if◌then◌else◌, Option}
use halborn.Wire.Result.{Result, ok}
use halborn.Wire.Reader.{Cursor, bytes_case}
use halborn.Wire.Writer.{Writer, ◌>>◌, put_bytes}
use halborn.Prelude.{length}
use halborn.Api.Runtime.{
  Runtime, Codec, string_size, message_size, put_string, put_message, size_message, marshal_message,
}
use halborn.Api.Runtime.Unmarshal.{keep_unknown, message_case, unmarshal_message}
use halborn.Api.RedeemRequest.{RedeemRequest}

module _ {Coin Timestamp : Type 0} (rt : Runtime) (coin_codec : Codec Coin)
    (timestamp_codec : Codec Timestamp) where
  unfoldable pub size_fields : RedeemRequest Coin Timestamp → ℕ
  size_fields x =
      string_size rt x.account
      + message_size rt coin_codec x.collateral
      + message_size rt timestamp_codec x.completiontime
      + length x.unknown_fields

  unfoldable pub fill : RedeemRequest Coin Timestamp → Writer
  fill x =
      put_bytes x.unknown_fields
      >> put_message rt timestamp_codec 0x1a x.completiontime
      >> put_message rt coin_codec 0x12 x.collateral
      >> put_string rt 0x0a x.account

  -- The `switch fieldNum`; `discard` is the option DiscardUnknown.
  unfoldable pub unmarshal_field :
      Bool
      → ℕ
      → ℕ
      → Cursor
      → Cursor
      → RedeemRequest Coin Timestamp
      → Result (RedeemRequest Coin Timestamp × Cursor)
  unmarshal_field discard num wire_type pre c m =
      if num == 1
      then bytes_case wire_type (λ s. ok (record m { account = s })) c
      else (if num == 2
          then message_case coin_codec wire_type m.collateral (λ a. record m { collateral = a }) c
          else (if num == 3
              then message_case timestamp_codec wire_type m.completiontime
                  (λ a. record m { completiontime = a }) c
              else keep_unknown rt discard
                  (λ new. record m { unknown_fields = m.unknown_fields ++ new }) m pre))

  unfoldable pub size : Option (RedeemRequest Coin Timestamp) → ℕ
  unfolding size_fields
  size x = size_message size_fields x

  unfoldable pub marshal :
      Option Bytes → Option (RedeemRequest Coin Timestamp) → Option (Option Bytes)
  unfolding size_fields fill
  marshal buf x = marshal_message size_fields fill buf x

  unfoldable pub unmarshal :
      Bool
      → Option (RedeemRequest Coin Timestamp)
      → Bytes
      → Result (Option (RedeemRequest Coin Timestamp))
  unfolding unmarshal_field
  unmarshal discard x bs = unmarshal_message (unmarshal_field discard) x bs
