-- ===== src/Api/GenesisState/Codec.antt =====
-- The codec of GenesisState: the functions of ProtoMethods in api/halbornctf/hal/genesis.pulsar.go.
use halborn.Prelude.{ℕ, ◌+◌, Bytes, Bool, ◌++◌, ◌==◌, if◌then◌else◌, Option}
use halborn.Wire.Result.{Result}
use halborn.Wire.Reader.{Cursor}
use halborn.Wire.Writer.{Writer, ◌>>◌, put_bytes}
use halborn.Prelude.{length}
use halborn.Api.Runtime.{Runtime, Codec, message_size, put_message, size_message, marshal_message}
use halborn.Api.Runtime.Unmarshal.{keep_unknown, message_case, unmarshal_message}
use halborn.Api.Params.{Params}
use halborn.Api.GenesisState.{GenesisState}

module _ {Duration : Type 0} (rt : Runtime) (params_codec : Codec (Params Duration)) where
  unfoldable pub size_fields : GenesisState Duration → ℕ
  size_fields x = message_size rt params_codec x.params + length x.unknown_fields

  unfoldable pub fill : GenesisState Duration → Writer
  fill x = put_bytes x.unknown_fields >> put_message rt params_codec 0x0a x.params

  -- The `switch fieldNum`; `discard` is the option DiscardUnknown.
  unfoldable pub unmarshal_field :
      Bool
      → ℕ
      → ℕ
      → Cursor
      → Cursor
      → GenesisState Duration
      → Result (GenesisState Duration × Cursor)
  unmarshal_field discard num wire_type pre c m =
      if num == 1
      then message_case params_codec wire_type m.params (λ a. record m { params = a }) c
      else keep_unknown rt discard (λ new. record m { unknown_fields = m.unknown_fields ++ new }) m
          pre

  unfoldable pub size : Option (GenesisState Duration) → ℕ
  unfolding size_fields
  size x = size_message size_fields x

  unfoldable pub marshal : Option Bytes → Option (GenesisState Duration) → Option (Option Bytes)
  unfolding size_fields fill
  marshal buf x = marshal_message size_fields fill buf x

  unfoldable pub unmarshal :
      Bool → Option (GenesisState Duration) → Bytes → Result (Option (GenesisState Duration))
  unfolding unmarshal_field
  unmarshal discard x bs = unmarshal_message (unmarshal_field discard) x bs
