-- ===== src/Types/Coin.antt =====
-- `sdk.Coin` of the Cosmos SDK, the type that the module's messages and records carry.
use halborn.Prelude.{Bytes, []}
use halborn.Prelude.Int.{ℤ, pos}

pub record Coin : Type 0 where
  pub denom : Bytes
  pub amount : ℤ

-- `sdk.Coin{}`: its nil amount is marshalled and read as 0.
abbrev pub no_coin : Coin
no_coin = record { denom = []; amount = pos 0 }
