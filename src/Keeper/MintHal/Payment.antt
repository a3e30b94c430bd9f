-- ===== src/Keeper/MintHal/Payment.antt =====
-- MintHal with and without the collateral that it is asked for.
use halborn.Prelude.{
  ℕ, suc, ◌+◌, ◌*◌, ◌^◌, ◌<◌, ◌≤◌, ◌≡◌, ◌≢◌, arith, Bytes, true, false, [], ◌∷◌, some,
  bytes_eq_refl,
}
use halborn.Types.Params.{Params}
use halborn.Types.Messages.{MsgMintHal}
use halborn.Types.Keys.{collateral_pool_name}
use halborn.Sdk.Bank.{amount_of, at, spendable}
use halborn.Sdk.Coins.{coin, Covers-coin, amount_of-other}
use halborn.Sdk.Env.{Sdk, IsSdk}
use halborn.Keeper.Exec.{ok}
use halborn.Keeper.State.{State, bank_call_unchecked}
use halborn.Keeper.Params.{get_params}
use halborn.Keeper.MintHal.{mint_hal}
use halborn.Keeper.MintHal.Effects.{mint_hal_before_payment}

module _ (x : Sdk) where
  -- What a message must be like to reach the bank: a good address, a positive amount of the right
  -- denomination, and amounts that the decimals hold.
  pub record Accepted (s : State x) (msg : MsgMintHal) (acc : Bytes) (params : Params) (n : ℕ)
      : Type 0 where
    pub creator : x.acc_address_from_bech32 msg.creator ≡ some acc
    pub free : x.bank.blocked acc ≡ false
    pub stored : get_params x s ≡ (ok params, s)
    pub amount : msg.collateral_amount ≡ coin params.collateral_metas.denom (suc n)
    pub collateral_valid : x.math.valid_denom params.collateral_metas.denom ≡ true
    pub hal_valid : x.math.valid_denom params.hal_meta.denom ≡ true
    pub small : suc n * 2 < 2 ^ 255

module _ (x : Sdk) (laws : IsSdk x) {pool : Bytes}
    (pool_address : x.bank.get_module_address collateral_pool_name ≡ some pool)
    (may_mint : x.bank.minter collateral_pool_name ≡ true) where
  -- MintHal, for a message with a good creator who may receive, a positive amount of the
  -- collateral's denomination that fits the decimals, and valid denominations, on a chain where
  -- the collateral pool has an account and may mint: a creator who can spend the collateral gets
  -- twice as much HAL, the supply of HAL grows by it, the collateral goes to the pool, and no
  -- other holding changes.
  pub mint_hal-paid :
      (s : State x) (msg : MsgMintHal) (acc : Bytes) (params : Params) (n : ℕ)
      → Accepted x s msg acc params n
      → suc n ≤ spendable x.bank s.bank acc params.collateral_metas.denom
      → let hal = coin params.hal_meta.denom (suc n * 2) in
        let collateral = coin params.collateral_metas.denom (suc n) in
        (b : x.bank.State) × (mint_hal x msg s
          ≡ (ok (record { minted_amount = hal }), record s { bank = b }))
        × ((z d : Bytes)
            → x.bank.held b z d + at acc z (amount_of (collateral ∷ []) d)
              ≡ x.bank.held s.bank z d
                + at acc z (amount_of (hal ∷ []) d)
                + at pool z (amount_of (collateral ∷ []) d))
        × ((d : Bytes) → x.bank.total b d ≡ x.bank.total s.bank d + amount_of (hal ∷ []) d)
  mint_hal-paid s msg acc params n h enough =
      let d = params.collateral_metas.denom in
      let hal = coin params.hal_meta.denom (suc n * 2) ∷ [] in
      let (b, mf, before) =
        mint_hal_before_payment x laws pool_address may_mint msg n s h.creator h.free h.stored
          h.amount h.collateral_valid h.hal_valid h.small in
      let enough_left : suc n ≤ spendable x.bank b acc d =
        omega (arith, mf.held_lem acc d, mf.locked_lem acc d) in
      let (b', sent, mv) =
        (laws.bank_laws.from_account b acc collateral_pool_name (coin d (suc n) ∷ [])
            pool_address).goes_through
          (omega arith) (Covers-coin x.bank b acc d (suc n) enough_left) in
      (
        b',
        rw (before, bank_call_unchecked, sent),
        λ z e. omega (arith, mf.held_lem z e, mv.moved z e),
        λ e. omega (arith, mf.total_lem e, mv.total_same e),
      )

  -- MintHal, under the conditions of mint_hal-paid and with two different denominations, for a
  -- creator who cannot spend the collateral: the call succeeds, the creator gets twice the amount
  -- in HAL, the supply grows by it, and nothing is paid.
  pub mint_hal-unpaid :
      (s : State x) (msg : MsgMintHal) (acc : Bytes) (params : Params) (n : ℕ)
      → Accepted x s msg acc params n
      → params.hal_meta.denom ≢ params.collateral_metas.denom
      → spendable x.bank s.bank acc params.collateral_metas.denom < suc n
      → let hal = coin params.hal_meta.denom (suc n * 2) in
        (b : x.bank.State) × (mint_hal x msg s
          ≡ (ok (record { minted_amount = hal }), record s { bank = b }))
        × ((z d : Bytes)
            → x.bank.held b z d ≡ x.bank.held s.bank z d + at acc z (amount_of (hal ∷ []) d))
        × ((d : Bytes) → x.bank.total b d ≡ x.bank.total s.bank d + amount_of (hal ∷ []) d)
  mint_hal-unpaid s msg acc params n h differ short =
      let d = params.collateral_metas.denom in
      let (b, mf, before) =
        mint_hal_before_payment x laws pool_address may_mint msg n s h.creator h.free h.stored
          h.amount h.collateral_valid h.hal_valid h.small in
      let no_more : at acc acc (amount_of (coin params.hal_meta.denom (suc n * 2) ∷ []) d) ≡ 0 =
        rw (bytes_eq_refl acc) (amount_of-other params.hal_meta.denom d (suc n * 2) differ) in
      let refused =
        (laws.bank_laws.from_account b acc collateral_pool_name (coin d (suc n) ∷ [])
            pool_address).fails
          (omega arith) d
          (rw (bytes_eq_refl d) (omega (arith, mf.held_lem acc d, mf.locked_lem acc d, no_more))) in
      (b, rw (before, bank_call_unchecked, refused), mf.held_lem, mf.total_lem)
