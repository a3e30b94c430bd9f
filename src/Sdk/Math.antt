-- ===== src/Sdk/Math.antt =====
-- sdk.Coin, sdk.Coins and math.LegacyDec: constructors that panic, and exact decimal arithmetic.
use halborn.Prelude.{
  ℕ, suc, ◌-◌, ◌*◌, ◌/◌, ◌^◌, ◌<◌, ◌≡◌, Bytes, Bool, not, ◌&&◌, List, [], ◌∷◌, Option, none, some,
  if◌then◌else◌,
}
use halborn.Prelude.Int.{ℤ, pos, negsuc, is_negative, is_zero}
use halborn.Types.Coin.{Coin}

-- `none` is a panic.
pub record Math : Type 1 where
  pub valid_denom : Bytes → Bool
  -- Coin.IsValid, sdk.NewCoin, sdk.NewCoins of one coin
  pub is_valid : Coin → Bool
  pub new_coin : Bytes → ℤ → Option Coin
  pub new_coins : Coin → Option (List Coin)
  pub LegacyDec : Type 0
  pub new_dec : ℤ → LegacyDec
  pub new_dec_from_int : ℤ → LegacyDec
  pub mul : LegacyDec → LegacyDec → Option LegacyDec
  pub quo : LegacyDec → LegacyDec → Option LegacyDec
  pub truncate_int : LegacyDec → Option ℤ

pub record IsMath (m : Math) : Type 0 where
  -- A coin is valid if its denomination is and its amount is not negative.
  pub is_valid_lem : (c : Coin) → m.is_valid c ≡ m.valid_denom c.denom && not (is_negative c.amount)
  -- Others make the constructors panic; NewCoins first drops a coin of amount 0.
  pub new_coin_lem :
      (d : Bytes) (a : ℤ)
      → m.new_coin d a ≡ (
          if m.valid_denom d && not (is_negative a)
          then some (record { denom = d; amount = a })
          else none)
  pub new_coins_lem :
      (c : Coin)
      → m.new_coins c ≡ (
          if is_zero c.amount
          then some []
          else if m.valid_denom c.denom && not (is_negative c.amount)
          then some (c ∷ [])
          else none)
  -- A product of two integers is exact, up to 255 binary digits.
  pub mul-exact :
      (n k : ℕ)
      → n * k < 2 ^ 255
      → (d : m.LegacyDec) × (m.mul (m.new_dec_from_int (pos n)) (m.new_dec (pos k)) ≡ some d)
        × (m.truncate_int d ≡ some (pos (n * k)))
  pub mul-negative :
      (n k : ℕ)
      → suc n * suc k < 2 ^ 255
      → (d : m.LegacyDec) × (m.mul (m.new_dec_from_int (negsuc n)) (m.new_dec (pos (suc k)))
          ≡ some d)
        × (m.truncate_int d ≡ some (negsuc (suc n * suc k - 1)))
  -- A quotient is rounded at the 18th decimal place, which truncation then drops.
  pub quo-floor :
      (n k : ℕ)
      → n < 2 ^ 255
      → suc k < 10 ^ 18
      → (d : m.LegacyDec) × (m.quo (m.new_dec_from_int (pos n)) (m.new_dec (pos (suc k))) ≡ some d)
        × (m.truncate_int d ≡ some (pos (n / suc k)))
