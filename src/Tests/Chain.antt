-- ===== src/Tests/Chain.antt =====
-- A chain for the tests: ledgers are functions, a store is a list, decimals are integers.
pub mod Ledger
mod Stores
mod Numbers
use Ledger.{ledger_bank, ledger_laws}
use Stores.{list_store, list_store_laws}
use Numbers.{plain_math, plain_math_laws, plain_codec, plain_codec_laws}
use halborn.Prelude.{Bytes, Bool, some, refl, codes}
use halborn.Sdk.Env.{Sdk, IsSdk}

-- The chain on which the modules named by `registered` have accounts.
abbrev pub chain : (Bytes → Bool) → Sdk
chain registered = record {
  kv = list_store;
  bank = ledger_bank registered;
  math = plain_math;
  gogo = plain_codec;
  acc_address_from_bech32 = some;
  acc_address_string = λ a. a;
  time_string = λ t. codes "now";
}

pub chain_laws : (registered : Bytes → Bool) → IsSdk (chain registered)
chain_laws registered = record {
  kv_laws = list_store_laws;
  bank_laws = ledger_laws registered;
  math_laws = plain_math_laws;
  codec = plain_codec_laws;
  address-round = λ text a h. refl;
}
