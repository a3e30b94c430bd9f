-- ===== src/Keeper/MintHal/Effects.antt =====
-- What MintHal does to the bank.
use halborn.Prelude.{
  ℕ, suc, ◌+◌, ◌*◌, ◌^◌, ◌<◌, ◌≡◌, arith, Bytes, true, false, List, [], ◌∷◌, some, bytes_eq_refl,
}
use halborn.Prelude.Int.{pos}
use halborn.Types.Coin.{Coin}
use halborn.Types.Params.{Params}
use halborn.Types.Messages.{MsgMintHal}
use halborn.Types.Keys.{collateral_pool_name}
use halborn.Sdk.Bank.{done, amount_of, at, IsCoins, Covers}
use halborn.Sdk.Coins.{coin, at_self}
use halborn.Sdk.Env.{Sdk, IsSdk}
use halborn.Keeper.Exec.{ok, pure, ◌>>◌}
use halborn.Keeper.State.{State, bank_call, bank_call_unchecked}
use halborn.Keeper.Params.{get_params}
use halborn.Keeper.MintHal.{mint_amount, mint_with, mint_hal}

module _ (x : Sdk) where
  -- HAL minted for `acc`: its holdings and the supply have grown, and nothing else has changed.
  pub record MintedFor (b b' : x.bank.State) (acc : Bytes) (cs : List Coin) : Type 0 where
    pub held_lem :
        (z d : Bytes) → x.bank.held b' z d ≡ x.bank.held b z d + at acc z (amount_of cs d)
    pub locked_lem : (a d : Bytes) → x.bank.locked b' a d ≡ x.bank.locked b a d
    pub total_lem : (d : Bytes) → x.bank.total b' d ≡ x.bank.total b d + amount_of cs d

module _ (x : Sdk) (laws : IsSdk x) where
  pub new_coin-valid :
      (d : Bytes) (n : ℕ)
      → x.math.valid_denom d ≡ true
      → x.math.new_coin d (pos n) ≡ some (coin d n)
  new_coin-valid d n v = rw (laws.math_laws.new_coin_lem d (pos n), v)

  pub new_coins-positive :
      (d : Bytes) (n : ℕ)
      → x.math.valid_denom d ≡ true
      → x.math.new_coins (coin d (suc n)) ≡ some (coin d (suc n) ∷ [])
  new_coins-positive d n v = rw (laws.math_laws.new_coins_lem (coin d (suc n)), v) (ground arith)

  -- Two HAL for each unit of collateral.
  mint_amount-double :
      (n : ℕ) (s : State x) → n * 2 < 2 ^ 255 → mint_amount x (pos n) s ≡ (ok (pos (n * 2)), s)
  unfolding mint_amount
  mint_amount-double n s h =
      let (d, product, truncated) = laws.math_laws.mul-exact n 2 h in rw (product, truncated)

  module _ {pool : Bytes}
      (pool_address : x.bank.get_module_address collateral_pool_name ≡ some pool)
      (may_mint : x.bank.minter collateral_pool_name ≡ true) where
    mint_and_send :
        (b : x.bank.State) (acc : Bytes) (cs : List Coin)
        → IsCoins cs
        → x.bank.blocked acc ≡ false
        → (b1 : x.bank.State) × (b2 : x.bank.State) × (x.bank.mint_coins b collateral_pool_name cs
            ≡ done b1)
          × (x.bank.send_coins_from_module_to_account b1 collateral_pool_name acc cs ≡ done b2)
          × MintedFor x b b2 acc cs
    mint_and_send b acc cs valid free =
        let (b1, minted, add) =
          laws.bank_laws.minted b collateral_pool_name cs pool_address may_mint valid in
        let covers : Covers x.bank b1 pool cs = λ d. omega (
          arith,
          laws.bank_laws.module_unlocked b1 collateral_pool_name d pool_address,
          add.added pool d,
          at_self pool (amount_of cs d),
        ) in
        let (b2, sent, mv) =
          (laws.bank_laws.to_account b1 collateral_pool_name acc cs pool_address free).goes_through
            valid covers in
        (
          b1,
          b2,
          minted,
          sent,
          record {
            held_lem = λ z d. omega (arith, add.added z d, mv.moved z d);
            locked_lem = λ a d. omega (arith, add.locked_still a d, mv.locked_same a d);
            total_lem = λ d. omega (arith, add.total_added d, mv.total_same d);
          },
        )

    -- The handler up to its last call: whether the collateral can be paid plays no part so far.
    pub mint_hal_before_payment :
        (msg : MsgMintHal) (n : ℕ) {acc : Bytes} {params : Params} (s : State x)
        → x.acc_address_from_bech32 msg.creator ≡ some acc
        → x.bank.blocked acc ≡ false
        → get_params x s ≡ (ok params, s)
        → msg.collateral_amount ≡ coin params.collateral_metas.denom (suc n)
        → x.math.valid_denom params.collateral_metas.denom ≡ true
        → x.math.valid_denom params.hal_meta.denom ≡ true
        → suc n * 2 < 2 ^ 255
        → let hal = coin params.hal_meta.denom (suc n * 2) in
          let collateral = coin params.collateral_metas.denom (suc n) in
          (b : x.bank.State) × MintedFor x s.bank b acc (hal ∷ [])
          × (mint_hal x msg s
              ≡ (bank_call_unchecked x (λ c.
                      x.bank.send_coins_from_account_to_module c acc collateral_pool_name
                        (collateral ∷ []))
                    >> pure (record { minted_amount = hal }))
                  (record s { bank = b }))
    unfolding mint_hal mint_with
    mint_hal_before_payment msg n {acc} {params} s creator free stored amount vc vh small =
        let hal_denom = params.hal_meta.denom in
        let double : suc n * 2 ≡ suc (suc (n * 2)) = omega arith in
        let (b1, b2, minted, sent, mf) =
          mint_and_send s.bank acc (coin hal_denom (suc n * 2) ∷ []) (omega arith) free in
        (
          b2,
          mf,
          rw (
            creator,
            amount,
            laws.math_laws.is_valid_lem (coin params.collateral_metas.denom (suc n)),
            vc,
            stored,
            bytes_eq_refl params.collateral_metas.denom,
            mint_amount-double (suc n) s small,
            new_coin-valid hal_denom (suc n * 2) vh,
            rw (← double) at (new_coins-positive hal_denom (suc (n * 2)) vh),
            bank_call,
            minted,
            sent,
            new_coins-positive params.collateral_metas.denom n vc,
          ),
        )
