-- ===== src/Api/MsgRedeemCollateralResponse/Codec.antt =====
-- The codec of MsgRedeemCollateralResponse: the functions of ProtoMethods in api/halbornctf/hal/tx.pulsar.go.
use halborn.Prelude.{ℕ, ◌+◌, Bytes, Bool, ◌++◌, ◌==◌, if◌then◌else◌, Option}
use halborn.Wire.Result.{Result}
use halborn.Wire.Reader.{Cursor}
use halborn.Wire.Writer.{Writer, ◌>>◌, put_bytes}
use halborn.Prelude.{length}
use halborn.Api.Runtime.{Runtime, Codec, message_size, put_message, size_message, marshal_message}
use halborn.Api.Runtime.Unmarshal.{keep_unknown, message_case, unmarshal_message}
use halborn.Api.MsgRedeemCollateralResponse.{MsgRedeemCollateralResponse}

module _ {Coin Timestamp : Type 0} (rt : Runtime) (coin_codec : Codec Coin)
    (timestamp_codec : Codec Timestamp) where
  unfoldable pub size_fields : MsgRedeemCollateralResponse Coin Timestamp → ℕ
  size_fields x =
      message_size rt coin_codec x.burned_amount
      + message_size rt timestamp_codec x.completion_time
      + length x.unknown_fields

  unfoldable pub fill : MsgRedeemCollateralResponse Coin Timestamp → Writer
  fill x =
      put_bytes x.unknown_fields
      >> put_message rt timestamp_codec 0x12 x.completion_time
      >> put_message rt coin_codec 0x0a x.burned_amount

  -- The `switch fieldNum`; `discard` is the option DiscardUnknown.
  unfoldable pub unmarshal_field :
      Bool
      → ℕ
      → ℕ
      → Cursor
      → Cursor
      → MsgRedeemCollateralResponse Coin Timestamp
      → Result (MsgRedeemCollateralResponse Coin Timestamp × Cursor)
  unmarshal_field discard num wire_type pre c m =
      if num == 1
      then message_case coin_codec wire_type m.burned_amount (λ a. record m { burned_amount = a }) c
      else (if num == 2
          then message_case timestamp_codec wire_type m.completion_time
              (λ a. record m { completion_time = a }) c
          else keep_unknown rt discard
              (λ new. record m { unknown_fields = m.unknown_fields ++ new }) m pre)

  unfoldable pub size : Option (MsgRedeemCollateralResponse Coin Timestamp) → ℕ
  unfolding size_fields
  size x = size_message size_fields x

  unfoldable pub marshal :
      Option Bytes → Option (MsgRedeemCollateralResponse Coin Timestamp) → Option (Option Bytes)
  unfolding size_fields fill
  marshal buf x = marshal_message size_fields fill buf x

  unfoldable pub unmarshal :
      Bool
      → Option (MsgRedeemCollateralResponse Coin Timestamp)
      → Bytes
      → Result (Option (MsgRedeemCollateralResponse Coin Timestamp))
  unfolding unmarshal_field
  unmarshal discard x bs = unmarshal_message (unmarshal_field discard) x bs
