-- ===== src/Api/MsgMintHal/Codec.antt =====
-- The codec of MsgMintHal: the functions of ProtoMethods in api/halbornctf/hal/tx.pulsar.go.
use halborn.Prelude.{ℕ, ◌+◌, Bytes, Bool, ◌++◌, ◌==◌, if◌then◌else◌, Option}
use halborn.Wire.Result.{Result, ok}
use halborn.Wire.Reader.{Cursor, bytes_case}
use halborn.Wire.Writer.{Writer, ◌>>◌, put_bytes}
use halborn.Prelude.{length}
use halborn.Api.Runtime.{
  Runtime, Codec, string_size, message_size, put_string, put_message, size_message, marshal_message,
}
use halborn.Api.Runtime.Unmarshal.{keep_unknown, message_case, unmarshal_message}
use halborn.Api.MsgMintHal.{MsgMintHal}

module _ {Coin : Type 0} (rt : Runtime) (coin_codec : Codec Coin) where
  unfoldable pub size_fields : MsgMintHal Coin → ℕ
  size_fields x =
      string_size rt x.creator
      + message_size rt coin_codec x.collateral_amount
      + length x.unknown_fields

  unfoldable pub fill : MsgMintHal Coin → Writer
  fill x =
      put_bytes x.unknown_fields
      >> put_message rt coin_codec 0x12 x.collateral_amount
      >> put_string rt 0x0a x.creator

  -- The `switch fieldNum`; `discard` is the option DiscardUnknown.
  unfoldable pub unmarshal_field :
      Bool → ℕ → ℕ → Cursor → Cursor → MsgMintHal Coin → Result (MsgMintHal Coin × Cursor)
  unmarshal_field discard num wire_type pre c m =
      if num == 1
      then bytes_case wire_type (λ s. ok (record m { creator = s })) c
      else (if num == 2
          then message_case coin_codec wire_type m.collateral_amount
              (λ a. record m { collateral_amount = a }) c
          else keep_unknown rt discard
              (λ new. record m { unknown_fields = m.unknown_fields ++ new }) m pre)

  unfoldable pub size : Option (MsgMintHal Coin) → ℕ
  unfolding size_fields
  size x = size_message size_fields x

  unfoldable pub marshal : Option Bytes → Option (MsgMintHal Coin) → Option (Option Bytes)
  unfolding size_fields fill
  marshal buf x = marshal_message size_fields fill buf x

  unfoldable pub unmarshal :
      Bool → Option (MsgMintHal Coin) → Bytes → Result (Option (MsgMintHal Coin))
  unfolding unmarshal_field
  unmarshal discard x bs = unmarshal_message (unmarshal_field discard) x bs
