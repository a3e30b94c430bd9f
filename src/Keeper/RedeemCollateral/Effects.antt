-- ===== src/Keeper/RedeemCollateral/Effects.antt =====
-- What RedeemCollateral does to the bank.
use halborn.Prelude.{
  ℕ, suc, ◌+◌, ◌/◌, ◌^◌, ◌<◌, ◌≤◌, ◌≡◌, ◌≢◌, arith, Bytes, true, List, [], ◌∷◌, some, bytes_eq_refl,
  bytes_eq, bytes_eq→eq, Bool-cases, inl, inr,
}
use halborn.Prelude.Int.{pos}
use halborn.Types.Coin.{Coin}
use halborn.Types.Keys.{collateral_pool_name, redeem_pool_name}
use halborn.Sdk.Bank.{done, amount_of, at, Covers, Added, Moved, spendable}
use halborn.Sdk.Coins.{coin, coin-below, at-none, Covers-coin, amount_of-other}
use halborn.Sdk.Env.{Sdk, IsSdk}
use halborn.Keeper.Exec.{ok}
use halborn.Keeper.State.{State}
use halborn.Keeper.RedeemCollateral.{redeem_amount}

module _ (x : Sdk) (pool redeem_pool : Bytes) where
  -- The HAL is burned, and the collateral is in the redeem pool.
  pub record Redeemed (b b' : x.bank.State) (acc : Bytes) (hal collateral : List Coin)
      : Type 0 where
    pub held_lem :
        (z d : Bytes)
        → x.bank.held b' z d + at acc z (amount_of hal d) + at pool z (amount_of collateral d)
          ≡ x.bank.held b z d + at redeem_pool z (amount_of collateral d)
    pub total_lem : (d : Bytes) → x.bank.total b' d + amount_of hal d ≡ x.bank.total b d

module _ (x : Sdk) (laws : IsSdk x) {pool redeem_pool : Bytes}
    (pool_address : x.bank.get_module_address collateral_pool_name ≡ some pool)
    (redeem_pool_address : x.bank.get_module_address redeem_pool_name ≡ some redeem_pool)
    (may_burn : x.bank.burner collateral_pool_name ≡ true) where
  -- One collateral for two HAL, rounded down.
  pub redeem_amount-half :
      (n : ℕ) (s : State x) → n < 2 ^ 255 → redeem_amount x (pos n) s ≡ (ok (pos (n / 2)), s)
  unfolding redeem_amount
  redeem_amount-half n s h =
      let (d, quotient, truncated) = laws.math_laws.quo-floor n 1 h (omega arith) in
      rw (quotient, truncated)

  -- What is moved into the pool is there, also if it comes from the pool itself.
  arrived :
      (b b1 : x.bank.State) (acc : Bytes) (cs : List Coin)
      → Moved x.bank b b1 acc pool cs
      → ((e : Bytes) → amount_of cs e ≤ x.bank.held b acc e)
      → (e : Bytes) → amount_of cs e ≤ x.bank.held b1 pool e
  arrived b b1 acc cs mv has e = elim (Bool-cases (bytes_eq acc pool)) [
    | inl same ↦
        let here = rw (same, bytes_eq_refl pool) at (mv.moved pool e) in
        let enough = rw (bytes_eq→eq acc pool same) at (has e) in omega (arith, here, enough)
    | inr other ↦
        let here = rw (other, bytes_eq_refl pool) at (mv.moved pool e) in omega (arith, here)
  ]

  -- The HAL goes into the collateral pool and is burned there.
  take_and_burn :
      (b : x.bank.State) (acc d : Bytes) (n : ℕ)
      → suc n ≤ spendable x.bank b acc d
      → suc n ≤ x.bank.total b d
      → (b1 : x.bank.State) × (b2 : x.bank.State) × (x.bank.send_coins_from_account_to_module b acc
            collateral_pool_name
            (coin d (suc n) ∷ [])
          ≡ done b1)
        × (x.bank.burn_coins b1 collateral_pool_name (coin d (suc n) ∷ []) ≡ done b2)
        × Added x.bank b2 b acc (coin d (suc n) ∷ [])
  take_and_burn b acc d n has le =
      let cs = coin d (suc n) ∷ [] in
      let (b1, sent, mv) =
        (laws.bank_laws.from_account b acc collateral_pool_name cs pool_address).goes_through
          (omega arith) (Covers-coin x.bank b acc d (suc n) has) in
      let covers : Covers x.bank b1 pool cs = λ e. omega (
        arith,
        laws.bank_laws.module_unlocked b1 collateral_pool_name e pool_address,
        arrived b b1 acc cs mv (coin-below d (suc n) (x.bank.held b acc) (omega arith)) e,
      ) in
      let below : (e : Bytes) → amount_of cs e ≤ x.bank.total b1 e =
        λ e. omega (arith, mv.total_same e, coin-below d (suc n) (x.bank.total b) le e) in
      let (b2, burned, add) =
        laws.bank_laws.burned b1 collateral_pool_name cs pool_address may_burn (omega arith) covers
          below in
      (
        b1,
        b2,
        sent,
        burned,
        record {
          added = λ z e. omega (arith, mv.moved z e, add.added z e);
          total_added = λ e. omega (arith, mv.total_same e, add.total_added e);
          locked_still = λ a e. omega (arith, mv.locked_same a e, add.locked_still a e);
        },
      )

  pub three_calls :
      (b : x.bank.State) (acc hal_denom d : Bytes) (n k : ℕ)
      → suc n ≤ spendable x.bank b acc hal_denom
      → suc n ≤ x.bank.total b hal_denom
      → hal_denom ≢ d
      → suc k ≤ x.bank.held b pool d
      → let hal = coin hal_denom (suc n) ∷ [] in
        let collateral = coin d (suc k) ∷ [] in
        (b1 : x.bank.State) × (b2 : x.bank.State) × (b3 : x.bank.State)
        × (x.bank.send_coins_from_account_to_module b acc collateral_pool_name hal ≡ done b1)
        × (x.bank.burn_coins b1 collateral_pool_name hal ≡ done b2)
        × (x.bank.send_coins_from_module_to_module b2 collateral_pool_name redeem_pool_name
              collateral
            ≡ done b3)
        × Redeemed x pool redeem_pool b b3 acc hal collateral
  three_calls b acc hal_denom d n k has le differ enough =
      let (b1, b2, sent, burned, add) = take_and_burn b acc hal_denom n has le in
      let covers : Covers x.bank b2 pool (coin d (suc k) ∷ []) =
        Covers-coin x.bank b2 pool d (suc k) (
          omega (
            arith,
            laws.bank_laws.module_unlocked b2 collateral_pool_name d pool_address,
            add.added pool d,
            at-none acc pool _ (amount_of-other hal_denom d (suc n) differ),
            enough,
          )) in
      let (b3, paid, mv) =
        (laws.bank_laws.between_modules b2 collateral_pool_name redeem_pool_name
            (coin d (suc k) ∷ []) pool_address redeem_pool_address).goes_through
          (omega arith) covers in
      (
        b1,
        b2,
        b3,
        sent,
        burned,
        paid,
        record {
          held_lem = λ z e. omega (arith, mv.moved z e, add.added z e);
          total_lem = λ e. omega (arith, mv.total_same e, add.total_added e);
        },
      )
