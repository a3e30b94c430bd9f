-- ===== src/Api/MsgMintHalResponse/Codec.antt =====
-- The codec of MsgMintHalResponse: the functions of ProtoMethods in api/halbornctf/hal/tx.pulsar.go.
use halborn.Prelude.{ℕ, ◌+◌, Bytes, Bool, ◌++◌, ◌==◌, if◌then◌else◌, Option}
use halborn.Wire.Result.{Result}
use halborn.Wire.Reader.{Cursor}
use halborn.Wire.Writer.{Writer, ◌>>◌, put_bytes}
use halborn.Prelude.{length}
use halborn.Api.Runtime.{Runtime, Codec, message_size, put_message, size_message, marshal_message}
use halborn.Api.Runtime.Unmarshal.{keep_unknown, message_case, unmarshal_message}
use halborn.Api.MsgMintHalResponse.{MsgMintHalResponse}

module _ {Coin : Type 0} (rt : Runtime) (coin_codec : Codec Coin) where
  unfoldable pub size_fields : MsgMintHalResponse Coin → ℕ
  size_fields x = message_size rt coin_codec x.minted_amount + length x.unknown_fields

  unfoldable pub fill : MsgMintHalResponse Coin → Writer
  fill x = put_bytes x.unknown_fields >> put_message rt coin_codec 0x0a x.minted_amount

  -- The `switch fieldNum`; `discard` is the option DiscardUnknown.
  unfoldable pub unmarshal_field :
      Bool
      → ℕ
      → ℕ
      → Cursor
      → Cursor
      → MsgMintHalResponse Coin
      → Result (MsgMintHalResponse Coin × Cursor)
  unmarshal_field discard num wire_type pre c m =
      if num == 1
      then message_case coin_codec wire_type m.minted_amount (λ a. record m { minted_amount = a }) c
      else keep_unknown rt discard (λ new. record m { unknown_fields = m.unknown_fields ++ new }) m
          pre

  unfoldable pub size : Option (MsgMintHalResponse Coin) → ℕ
  unfolding size_fields
  size x = size_message size_fields x

  unfoldable pub marshal : Option Bytes → Option (MsgMintHalResponse Coin) → Option (Option Bytes)
  unfolding size_fields fill
  marshal buf x = marshal_message size_fields fill buf x

  unfoldable pub unmarshal :
      Bool → Option (MsgMintHalResponse Coin) → Bytes → Result (Option (MsgMintHalResponse Coin))
  unfolding unmarshal_field
  unmarshal discard x bs = unmarshal_message (unmarshal_field discard) x bs
