-- ===== src/Tests/VarintRuns.antt =====
-- The varint of 300.
use halborn.Prelude.{◌+◌, ◌≡◌, arith, ◌++◌, ◌∷◌, [], length}
use halborn.Wire.Result.{ok}
use halborn.Wire.Reader.{read_varint}
use halborn.Wire.Writer.{sov, varint_loop}
use halborn.Wire.Varint.{sov-length}
use halborn.Wire.VarintRead.{after, read_varint-varint_loop}

sov-length_example : sov 300 ≡ length (varint_loop 9 300)
sov-length_example = sov-length 300 (omega arith)

read_varint-varint_loop_example :
    read_varint 64 (after 5 (varint_loop 9 300 ++ (7 ∷ [])))
    ≡ ok (300, after (5 + length (varint_loop 9 300)) (7 ∷ []))
read_varint-varint_loop_example =
    read_varint-varint_loop 64 300 5 (7 ∷ []) (omega arith) (omega arith)
