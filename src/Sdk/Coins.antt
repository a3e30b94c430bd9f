-- ===== src/Sdk/Coins.antt =====
-- One coin as a list of coins.
use halborn.Prelude.{
  ℕ, ◌≤◌, ◌≡◌, ◌≢◌, arith, Bytes, [], ◌∷◌, bytes_eq, bytes_eq→eq, bytes_eq_refl, bytes_ne→false,
  Bool-cases, inl, inr,
}
use halborn.Prelude.Int.{pos}
use halborn.Types.Coin.{Coin}
use halborn.Sdk.Bank.{Bank, amount_of, at, Covers, spendable}

-- A coin of an amount that is not negative.
abbrev pub coin : Bytes → ℕ → Coin
coin d n = record { denom = d; amount = pos n }

-- What stands at an address that is looked up there.
pub at_self : (a : Bytes) (n : ℕ) → at a a n ≡ n
at_self a n = rw (bytes_eq_refl a)

pub at-none : (a z : Bytes) (n : ℕ) → n ≡ 0 → at a z n ≡ 0
at-none a z n h = ground arith

pub at-other : (a z : Bytes) (n : ℕ) → a ≢ z → at a z n ≡ 0
at-other a z n h = rw (bytes_ne→false a z h)

-- One coin covers what its denomination has.
pub Covers-coin :
    (bank : Bank) (b : bank.State) (a d : Bytes) (n : ℕ)
    → n ≤ spendable bank b a d
    → Covers bank b a (coin d n ∷ [])
Covers-coin bank b a d n h e = elim (Bool-cases (bytes_eq d e)) [
  | inl same ↦ rw (same, ← bytes_eq→eq d e same) (omega arith)
  | inr other ↦ rw other (omega arith)
]

-- What one coin adds at an address, in its own denomination and in another.
pub at-amount_self : (a d : Bytes) (n : ℕ) → at a a (amount_of (coin d n ∷ []) d) ≡ n
at-amount_self a d n = rw (bytes_eq_refl a, bytes_eq_refl d) (omega arith)

pub amount_of-other : (d e : Bytes) (n : ℕ) → d ≢ e → amount_of (coin d n ∷ []) e ≡ 0
amount_of-other d e n h = rw (bytes_ne→false d e h) (omega arith)

-- A condition on every denomination holds of one coin where it holds of its own denomination.
pub coin-below :
    (d : Bytes) (n : ℕ) (f : Bytes → ℕ) → n ≤ f d → (e : Bytes) → amount_of (coin d n ∷ []) e ≤ f e
coin-below d n f h e = elim (Bool-cases (bytes_eq d e)) [
  | inl same ↦ rw (same, ← bytes_eq→eq d e same) (omega arith)
  | inr other ↦ rw other (omega arith)
]
