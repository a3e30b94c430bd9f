-- ===== src/Api/QueryParamsRequest/Codec.antt =====
-- The codec of QueryParamsRequest: the functions of ProtoMethods in api/halbornctf/hal/query.pulsar.go.
use halborn.Prelude.{ℕ, Bytes, Bool, ◌++◌, Option, length}
use halborn.Wire.Result.{Result}
use halborn.Wire.Reader.{Cursor}
use halborn.Wire.Writer.{Writer, put_bytes}
use halborn.Api.Runtime.{Runtime, size_message, marshal_message}
use halborn.Api.Runtime.Unmarshal.{keep_unknown, unmarshal_message}
use halborn.Api.QueryParamsRequest.{QueryParamsRequest}

unfoldable pub size_fields : QueryParamsRequest → ℕ
size_fields x = length x.unknown_fields

unfoldable pub fill : QueryParamsRequest → Writer
fill x = put_bytes x.unknown_fields

unfoldable pub size : Option QueryParamsRequest → ℕ
unfolding size_fields
size x = size_message size_fields x

unfoldable pub marshal : Option Bytes → Option QueryParamsRequest → Option (Option Bytes)
unfolding size_fields fill
marshal buf x = marshal_message size_fields fill buf x

module _ (rt : Runtime) where
  -- The `switch fieldNum`, with its default case; `discard` is the option DiscardUnknown.
  unfoldable pub unmarshal_field :
      Bool → ℕ → ℕ → Cursor → Cursor → QueryParamsRequest → Result (QueryParamsRequest × Cursor)
  unmarshal_field discard num wire_type pre c m =
      keep_unknown rt discard (λ new. record m { unknown_fields = m.unknown_fields ++ new }) m pre

  unfoldable pub unmarshal :
      Bool → Option QueryParamsRequest → Bytes → Result (Option QueryParamsRequest)
  unfolding unmarshal_field
  unmarshal discard x bs = unmarshal_message (unmarshal_field discard) x bs
