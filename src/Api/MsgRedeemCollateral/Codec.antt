-- ===== src/Api/MsgRedeemCollateral/Codec.antt =====
-- The codec of MsgRedeemCollateral: the functions of ProtoMethods in api/halbornctf/hal/tx.pulsar.go.
use halborn.Prelude.{ℕ, ◌+◌, Bytes, Bool, ◌++◌, ◌==◌, if◌then◌else◌, Option}
use halborn.Wire.Result.{Result, ok}
use halborn.Wire.Reader.{Cursor, bytes_case}
use halborn.Wire.Writer.{Writer, ◌>>◌, put_bytes}
use halborn.Prelude.{length}
use halborn.Api.Runtime.{
  Runtime, Codec, string_size, message_size, put_string, put_message, size_message, marshal_message,
}
use halborn.Api.Runtime.Unmarshal.{keep_unknown, message_case, unmarshal_message}
use halborn.Api.MsgRedeemCollateral.{MsgRedeemCollateral}

module _ {Coin : Type 0} (rt : Runtime) (coin_codec : Codec Coin) where
  unfoldable pub size_fields : MsgRedeemCollateral Coin → ℕ
  size_fields x =
      string_size rt x.creator + message_size rt coin_codec x.hal_amount + length x.unknown_fields

  unfoldable pub fill : MsgRedeemCollateral Coin → Writer
  fill x =
      put_bytes x.unknown_fields
      >> put_message rt coin_codec 0x12 x.hal_amount
      >> put_string rt 0x0a x.creator

  -- The `switch fieldNum`; `discard` is the option DiscardUnknown.
  unfoldable pub unmarshal_field :
      Bool
      → ℕ
      → ℕ
      → Cursor
      → Cursor
      → MsgRedeemCollateral Coin
      → Result (MsgRedeemCollateral Coin × Cursor)
  unmarshal_field discard num wire_type pre c m =
      if num == 1
      then bytes_case wire_type (λ s. ok (record m { creator = s })) c
      else (if num == 2
          then message_case coin_codec wire_type m.hal_amount (λ a. record m { hal_amount = a }) c
          else keep_unknown rt discard
              (λ new. record m { unknown_fields = m.unknown_fields ++ new }) m pre)

  unfoldable pub size : Option (MsgRedeemCollateral Coin) → ℕ
  unfolding size_fields
  size x = size_message size_fields x

  unfoldable pub marshal : Option Bytes → Option (MsgRedeemCollateral Coin) → Option (Option Bytes)
  unfolding size_fields fill
  marshal buf x = marshal_message size_fields fill buf x

  unfoldable pub unmarshal :
      Bool → Option (MsgRedeemCollateral Coin) → Bytes → Result (Option (MsgRedeemCollateral Coin))
  unfolding unmarshal_field
  unmarshal discard x bs = unmarshal_message (unmarshal_field discard) x bs
