-- ===== src/App/Accounts.antt =====
-- The module accounts of the application, and the addresses that may not receive: moduleAccPerms and
-- blockAccAddrs of app/app_config.go, GetMaccPerms and BlockedAddresses of app/app.go.
use halborn.Prelude.{
  ◌≡◌, ◌≢◌, refl, Bytes, Bool, true, List, [], ◌∷◌, Option, none, some, bytes_eq, bytes_ne→false,
  if◌then◌else◌,
}
use halborn.Types.Keys.{module_name, collateral_pool_name, redeem_pool_name, treasury_key}

-- The names of other modules and of their permissions, which stand outside the repository.
pub record Names : Type 0 where
  pub fee_collector : Bytes
  pub distribution : Bytes
  pub mint : Bytes
  pub bonded_pool : Bytes
  pub not_bonded_pool : Bytes
  pub gov : Bytes
  pub nft : Bytes
  pub ibc_transfer : Bytes
  pub ibc_fee : Bytes
  pub interchain_accounts : Bytes
  pub staking_module : Bytes
  pub minter : Bytes
  pub burner : Bytes
  pub staking : Bytes

pub record Permission : Type 0 where
  pub account : Bytes
  pub permissions : List Bytes

module _ (n : Names) where
  abbrev pub module_acc_perms : List Permission
  module_acc_perms =
      record { account = n.fee_collector; permissions = [] }
      ∷ record { account = n.distribution; permissions = [] }
      ∷ record { account = n.mint; permissions = n.minter ∷ [] }
      ∷ record { account = n.bonded_pool; permissions = n.burner ∷ n.staking_module ∷ [] }
      ∷ record { account = n.not_bonded_pool; permissions = n.burner ∷ n.staking_module ∷ [] }
      ∷ record { account = n.gov; permissions = n.burner ∷ [] }
      ∷ record { account = n.nft; permissions = [] }
      ∷ record { account = n.ibc_transfer; permissions = n.minter ∷ n.burner ∷ [] }
      ∷ record { account = n.ibc_fee; permissions = [] }
      ∷ record { account = n.interchain_accounts; permissions = [] }
      ∷ record { account = module_name; permissions = n.minter ∷ n.burner ∷ n.staking ∷ [] }
      ∷ record { account = collateral_pool_name; permissions = n.minter ∷ n.burner ∷ [] }
      ∷ record { account = redeem_pool_name; permissions = n.minter ∷ n.burner ∷ [] }
      ∷ []

  abbrev pub block_acc_addrs : List Bytes
  block_acc_addrs =
      n.fee_collector ∷ n.distribution ∷ n.mint ∷ n.bonded_pool ∷ n.not_bonded_pool ∷ n.nft ∷ []

-- A map by its look-up.
abbrev pub Map : Type 0 → Type 0
Map V = Bytes → Option V

abbrev pub insert : {V : Type 0} → Map V → Bytes → V → Map V
insert m k v j = if bytes_eq k j then some v else m j

-- The loops over the two lists.
abbrev pub add_perms : Map (List Bytes) → List Permission → Map (List Bytes)
add_perms dup [] = dup
add_perms dup (p ∷ ps) = add_perms (insert dup p.account p.permissions) ps

abbrev pub add_addrs : Map Bool → List Bytes → Map Bool
add_addrs result [] = result
add_addrs result (a ∷ rest) = add_addrs (insert result a true) rest

unfoldable pub get_macc_perms : Names → Map (List Bytes)
get_macc_perms n = add_perms (λ a. none) (module_acc_perms n)

-- `for addr := range GetMaccPerms()`: every key of the map
abbrev keys_of : Option (List Bytes) → Option Bool
keys_of none = none
keys_of (some p) = some true

abbrev blocked_of : Names → List Bytes → Map Bool
blocked_of n [] = λ a. keys_of (add_perms (λ a. none) (module_acc_perms n) a)
blocked_of n (a ∷ rest) = add_addrs (λ a. none) (a ∷ rest)

unfoldable pub blocked_addresses : Names → Map Bool
blocked_addresses n = blocked_of n (block_acc_addrs n)

-- Names of other modules that are none of the Halborn module's own.
pub record Apart (n : Names) (a : Bytes) : Type 0 where
  pub fee_collector_apart : n.fee_collector ≢ a
  pub distribution_apart : n.distribution ≢ a
  pub mint_apart : n.mint ≢ a
  pub bonded_apart : n.bonded_pool ≢ a
  pub not_bonded_apart : n.not_bonded_pool ≢ a
  pub gov_apart : n.gov ≢ a
  pub nft_apart : n.nft ≢ a
  pub transfer_apart : n.ibc_transfer ≢ a
  pub fee_apart : n.ibc_fee ≢ a
  pub interchain_apart : n.interchain_accounts ≢ a

-- The treasury that CreateTicket pays into is no key of GetMaccPerms, if none of the other modules
-- has its name.
pub get_macc_perms-treasury_key :
    (n : Names) → Apart n treasury_key → get_macc_perms n treasury_key ≡ none
unfolding get_macc_perms
get_macc_perms-treasury_key n h = rw (
  bytes_ne→false n.fee_collector treasury_key h.fee_collector_apart,
  bytes_ne→false n.distribution treasury_key h.distribution_apart,
  bytes_ne→false n.mint treasury_key h.mint_apart,
  bytes_ne→false n.bonded_pool treasury_key h.bonded_apart,
  bytes_ne→false n.not_bonded_pool treasury_key h.not_bonded_apart,
  bytes_ne→false n.gov treasury_key h.gov_apart,
  bytes_ne→false n.nft treasury_key h.nft_apart,
  bytes_ne→false n.ibc_transfer treasury_key h.transfer_apart,
  bytes_ne→false n.ibc_fee treasury_key h.fee_apart,
  bytes_ne→false n.interchain_accounts treasury_key h.interchain_apart,
)

-- GetMaccPerms lets both pools mint and burn, and BlockedAddresses has neither, if none of the
-- other modules has their names.
pub pools_lem :
    (n : Names)
    → Apart n collateral_pool_name
    → Apart n redeem_pool_name
    → (get_macc_perms n collateral_pool_name ≡ some (n.minter ∷ n.burner ∷ []))
      × (get_macc_perms n redeem_pool_name ≡ some (n.minter ∷ n.burner ∷ []))
      × (blocked_addresses n collateral_pool_name ≡ none)
      × (blocked_addresses n redeem_pool_name ≡ none)
unfolding get_macc_perms blocked_addresses
pools_lem n c r =
    (refl, refl, not_blocked n collateral_pool_name c, not_blocked n redeem_pool_name r)
  where
    not_blocked : (n : Names) (a : Bytes) → Apart n a → blocked_addresses n a ≡ none
    not_blocked n a h = rw (
      bytes_ne→false n.fee_collector a h.fee_collector_apart,
      bytes_ne→false n.distribution a h.distribution_apart,
      bytes_ne→false n.mint a h.mint_apart,
      bytes_ne→false n.bonded_pool a h.bonded_apart,
      bytes_ne→false n.not_bonded_pool a h.not_bonded_apart,
      bytes_ne→false n.nft a h.nft_apart,
    )
