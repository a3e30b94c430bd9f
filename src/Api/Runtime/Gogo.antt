-- ===== src/Api/Runtime/Gogo.antt =====
-- A runtime: `sov`, `encodeVarint` and `skip` as they stand in the .pb.go files.
use halborn.Wire.Reader.{skip}
use halborn.Wire.Writer.{sov, encode_varint}
use halborn.Wire.Varint.{sov-length}
use halborn.Wire.Encoding.{encode_varint-Writes}
use halborn.Wire.Cases.{skip-field}
use halborn.Api.Runtime.{Runtime}
use halborn.Api.Runtime.Writes.{IsRuntime}

abbrev pub gogo_runtime : Runtime
gogo_runtime = record { sov = sov; encode_varint = encode_varint; skip = skip }

pub gogo_runtime-IsRuntime : IsRuntime gogo_runtime
gogo_runtime-IsRuntime = record {
  sov_lem = sov-length;
  encode-Writes = encode_varint-Writes;
  skip_lem = skip-field;
}
