-- ===== src/Wire/Gogo.antt =====
-- What the generated codecs use of other libraries: the codec of `sdk.Coin`, and those of times and
-- durations in gogoproto/types.
use halborn.Prelude.{ℕ, ◌≡◌, Bytes, length, Option, none, some}
use halborn.Prelude.Int.{ℤ}
use halborn.Types.Coin.{Coin, no_coin}

-- `StdTimeMarshalTo` writes as many bytes as `SizeOfStdTime` says, or fails; so for durations and
-- coins. `coin_unmarshal` merges what it reads into a coin.
pub record Gogo : Type 0 where
  pub coin_marshal : Coin → Bytes
  pub coin_unmarshal : Coin → Bytes → Option Coin
  pub time_marshal : ℤ → Option Bytes
  pub time_unmarshal : Bytes → Option ℤ
  pub duration_marshal : ℤ → Option Bytes
  pub duration_unmarshal : Bytes → Option ℤ

-- Each unmarshaller reads what its marshaller wrote.
pub record IsCodec (g : Gogo) : Type 0 where
  pub coin-round : (c : Coin) → g.coin_unmarshal no_coin (g.coin_marshal c) ≡ some c
  pub time-round : (t : ℤ) (bs : Bytes) → g.time_marshal t ≡ some bs → g.time_unmarshal bs ≡ some t
  pub duration-round :
      (d : ℤ) (bs : Bytes) → g.duration_marshal d ≡ some bs → g.duration_unmarshal bs ≡ some d

-- `SizeOfStdTime` and `SizeOfStdDuration`, 0 where marshalling fails
abbrev pub size_of : Option Bytes → ℕ
size_of none = 0
size_of (some bs) = length bs
