-- ===== src/Api/Module/Codec.antt =====
-- The codec of Module: the functions of ProtoMethods in api/halbornctf/hal/module/module.pulsar.go.
use halborn.Prelude.{ℕ, ◌+◌, Bytes, Bool, ◌++◌, ◌==◌, if◌then◌else◌, Option}
use halborn.Wire.Result.{Result, ok}
use halborn.Wire.Reader.{Cursor, bytes_case}
use halborn.Wire.Writer.{Writer, ◌>>◌, put_bytes}
use halborn.Prelude.{length}
use halborn.Api.Runtime.{Runtime, string_size, put_string, size_message, marshal_message}
use halborn.Api.Runtime.Unmarshal.{keep_unknown, unmarshal_message}
use halborn.Api.Module.{Module}

module _ (rt : Runtime) where
  unfoldable pub size_fields : Module → ℕ
  size_fields x = string_size rt x.authority + length x.unknown_fields

  unfoldable pub fill : Module → Writer
  fill x = put_bytes x.unknown_fields >> put_string rt 0x0a x.authority

  -- The `switch fieldNum`; `discard` is the option DiscardUnknown.
  unfoldable pub unmarshal_field :
      Bool → ℕ → ℕ → Cursor → Cursor → Module → Result (Module × Cursor)
  unmarshal_field discard num wire_type pre c m =
      if num == 1
      then bytes_case wire_type (λ s. ok (record m { authority = s })) c
      else keep_unknown rt discard (λ new. record m { unknown_fields = m.unknown_fields ++ new }) m
          pre

  unfoldable pub size : Option Module → ℕ
  unfolding size_fields
  size x = size_message size_fields x

  unfoldable pub marshal : Option Bytes → Option Module → Option (Option Bytes)
  unfolding size_fields fill
  marshal buf x = marshal_message size_fields fill buf x

  unfoldable pub unmarshal : Bool → Option Module → Bytes → Result (Option Module)
  unfolding unmarshal_field
  unmarshal discard x bs = unmarshal_message (unmarshal_field discard) x bs
