-- ===== src/Sdk/Env.antt =====
-- All that the module is given from outside.
use halborn.Prelude.{Bytes, ◌≡◌, Option, some}
use halborn.Prelude.Int.{ℤ}
use halborn.Wire.Gogo.{Gogo, IsCodec}
use halborn.Sdk.Store.{KvStore, IsKvStore}
use halborn.Sdk.Bank.{Bank, IsBank}
use halborn.Sdk.Math.{Math, IsMath}

pub record Sdk : Type 1 where
  pub kv : KvStore
  pub bank : Bank
  pub math : Math
  pub gogo : Gogo
  -- sdk.AccAddressFromBech32 and AccAddress.String
  pub acc_address_from_bech32 : Bytes → Option Bytes
  pub acc_address_string : Bytes → Bytes
  -- time.Time.String
  pub time_string : ℤ → Bytes

-- The documented behaviour of all of it.
pub record IsSdk (x : Sdk) : Type 0 where
  pub kv_laws : IsKvStore x.kv
  pub bank_laws : IsBank x.bank x.math.valid_denom
  pub math_laws : IsMath x.math
  pub codec : IsCodec x.gogo
  -- an address that was read is read again from its text
  pub address-round :
      (text a : Bytes)
      → x.acc_address_from_bech32 text ≡ some a
      → x.acc_address_from_bech32 (x.acc_address_string a) ≡ some a
