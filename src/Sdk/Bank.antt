-- ===== src/Sdk/Bank.antt =====
-- The bank and account keepers that the module expects: x/hal/types/expected_keepers.go.
use halborn.Prelude.{
  ℕ, ◌+◌, ◌-◌, ◌≤◌, ◌<◌, ◌≡◌, Bytes, Bool, true, false, List, [], ◌∷◌, Option, none, some, bytes_eq,
  ltb, if◌then◌else◌,
}
use halborn.Prelude.Int.{pos, pos_part, leb_ℤ}
use halborn.Types.Coin.{Coin}

-- How a call ends; a transfer that fails leaves the bank as it was.
pub data Reply (A : Type 0) : Type 0 where
  done : A → Reply A
  failed : Reply A
  panicked : Reply A

pub record Bank : Type 1 where
  pub State : Type 0
  -- GetBalance and GetSupply return the coin of sdk.NewCoin; `none` where that panics
  pub get_balance : State → Bytes → Bytes → Option Coin
  pub has_balance : State → Bytes → Coin → Bool
  pub get_supply : State → Bytes → Option Coin
  pub has_supply : State → Bytes → Bool
  pub send_coins_from_account_to_module : State → Bytes → Bytes → List Coin → Reply State
  pub send_coins_from_module_to_account : State → Bytes → Bytes → List Coin → Reply State
  pub send_coins_from_module_to_module : State → Bytes → Bytes → List Coin → Reply State
  pub mint_coins : State → Bytes → List Coin → Reply State
  pub burn_coins : State → Bytes → List Coin → Reply State
  -- AccountKeeper.GetModuleAddress; `none` where no module account has the name
  pub get_module_address : Bytes → Option Bytes
  -- what the documentation speaks of: holdings, the part of them that is locked, the supply,
  -- addresses that may not receive, and the permissions of module accounts
  pub held : State → Bytes → Bytes → ℕ
  pub locked : State → Bytes → Bytes → ℕ
  pub total : State → Bytes → ℕ
  pub blocked : Bytes → Bool
  pub minter : Bytes → Bool
  pub burner : Bytes → Bool

-- How much of a denomination a list of coins holds.
abbrev pub amount_of : List Coin → Bytes → ℕ
amount_of [] d = 0
amount_of (c ∷ cs) d = (if bytes_eq c.denom d then pos_part c.amount else 0) + amount_of cs d

-- `n` at one address and 0 elsewhere
abbrev pub at : Bytes → Bytes → ℕ → ℕ
at a z n = if bytes_eq a z then n else 0

-- Coins as sdk.NewCoins makes them of one coin: none, or one of a positive amount.
abbrev pub IsCoins : List Coin → Type 0
IsCoins [] = Unit
IsCoins (c ∷ []) = 0 < pos_part c.amount
IsCoins (c ∷ c' ∷ cs) = ⊥

module _ (b : Bank) where
  -- The coins have moved from one address to another, and nothing else has changed.
  pub record Moved (s s' : b.State) (from to : Bytes) (cs : List Coin) : Type 0 where
    pub moved :
        (z d : Bytes)
        → b.held s' z d + at from z (amount_of cs d) ≡ b.held s z d + at to z (amount_of cs d)
    pub total_same : (d : Bytes) → b.total s' d ≡ b.total s d
    pub locked_same : (a d : Bytes) → b.locked s' a d ≡ b.locked s a d

  -- The coins were added at an address, and to the supply.
  pub record Added (s s' : b.State) (to : Bytes) (cs : List Coin) : Type 0 where
    pub added : (z d : Bytes) → b.held s' z d ≡ b.held s z d + at to z (amount_of cs d)
    pub total_added : (d : Bytes) → b.total s' d ≡ b.total s d + amount_of cs d
    pub locked_still : (a d : Bytes) → b.locked s' a d ≡ b.locked s a d

  abbrev pub spendable : b.State → Bytes → Bytes → ℕ
  spendable s a d = b.held s a d - b.locked s a d

  abbrev pub Covers : b.State → Bytes → List Coin → Type 0
  Covers s a cs = (d : Bytes) → amount_of cs d ≤ spendable s a d

  -- A transfer of covered coins goes through, and one that is not covered fails.
  pub record Transfers (s : b.State) (from to : Bytes) (cs : List Coin) (r : Reply b.State)
      : Type 0 where
    pub goes_through :
        IsCoins cs → Covers s from cs → (s' : b.State) × (r ≡ done s') × Moved s s' from to cs
    pub fails : IsCoins cs → (d : Bytes) → spendable s from d < amount_of cs d → r ≡ failed

-- The documentation of x/bank, with the test of sdk.NewCoin on denominations. A call that names a
-- module account which does not exist panics, as does a mint or a burn by a module without the
-- permission, and as do GetBalance and GetSupply of a denomination that is not valid.
pub record IsBank (b : Bank) (valid_denom : Bytes → Bool) : Type 0 where
  pub get_balance_lem :
      (s : b.State) (a d : Bytes)
      → b.get_balance s a d
        ≡ (if valid_denom d then some (record { denom = d; amount = pos (b.held s a d) }) else none)
  pub get_supply_lem :
      (s : b.State) (d : Bytes)
      → b.get_supply s d
        ≡ (if valid_denom d then some (record { denom = d; amount = pos (b.total s d) }) else none)
  pub has_supply_lem : (s : b.State) (d : Bytes) → b.has_supply s d ≡ ltb 0 (b.total s d)
  pub has_balance_lem :
      (s : b.State) (a : Bytes) (c : Coin)
      → valid_denom c.denom ≡ true
      → b.has_balance s a c ≡ leb_ℤ c.amount (pos (b.held s a c.denom))
  pub from_account :
      (s : b.State) (a m : Bytes) {t : Bytes} (cs : List Coin)
      → b.get_module_address m ≡ some t
      → Transfers b s a t cs (b.send_coins_from_account_to_module s a m cs)
  pub from_account_unknown :
      (s : b.State) (a m : Bytes) (cs : List Coin)
      → b.get_module_address m ≡ none
      → b.send_coins_from_account_to_module s a m cs ≡ panicked
  pub to_account :
      (s : b.State) (m a : Bytes) {t : Bytes} (cs : List Coin)
      → b.get_module_address m ≡ some t
      → b.blocked a ≡ false
      → Transfers b s t a cs (b.send_coins_from_module_to_account s m a cs)
  pub between_modules :
      (s : b.State) (m n : Bytes) {t u : Bytes} (cs : List Coin)
      → b.get_module_address m ≡ some t
      → b.get_module_address n ≡ some u
      → Transfers b s t u cs (b.send_coins_from_module_to_module s m n cs)
  pub minted :
      (s : b.State) (m : Bytes) {t : Bytes} (cs : List Coin)
      → b.get_module_address m ≡ some t
      → b.minter m ≡ true
      → IsCoins cs
      → (s' : b.State) × (b.mint_coins s m cs ≡ done s') × Added b s s' t cs
  pub burned :
      (s : b.State) (m : Bytes) {t : Bytes} (cs : List Coin)
      → b.get_module_address m ≡ some t
      → b.burner m ≡ true
      → IsCoins cs
      → Covers b s t cs
      → ((d : Bytes) → amount_of cs d ≤ b.total s d)
      → (s' : b.State) × (b.burn_coins s m cs ≡ done s') × Added b s' s t cs
  pub burn_fails :
      (s : b.State) (m : Bytes) {t : Bytes} (cs : List Coin) (d : Bytes)
      → b.get_module_address m ≡ some t
      → b.burner m ≡ true
      → IsCoins cs
      → spendable b s t d < amount_of cs d
      → b.burn_coins s m cs ≡ failed
  -- what a module account holds is never locked
  pub module_unlocked :
      (s : b.State) (m : Bytes) {t : Bytes} (d : Bytes)
      → b.get_module_address m ≡ some t
      → b.locked s t d ≡ 0
