-- ===== src/Keeper/Requests/Payment.antt =====
-- EndRedeeming, request by request.
use halborn.Prelude.{
  ℕ, suc, ◌+◌, ◌<◌, ◌≤◌, ◌≡◌, ◌≢◌, refl, sym, arith, Bytes, true, false, [], ◌∷◌, some,
  bytes_eq_refl, bytes_ne→false, lt→ltb, le→ltb_false,
}
use halborn.Prelude.Int.{ltb_ℤ}
use halborn.Types.Records.{RedeemRequest}
use halborn.Types.Keys.{redeem_pool_name}
use halborn.Sdk.Bank.{Moved}
use halborn.Sdk.Coins.{coin, at-none, Covers-coin, at-amount_self}
use halborn.Sdk.Env.{Sdk, IsSdk}
use halborn.Keeper.Exec.{ok, panic}
use halborn.Keeper.State.{State, Context}
use halborn.Keeper.Requests.{request_key, process, delete_redeem_request, settle, transfer}
use halborn.Keeper.MintHal.Effects.{new_coins-positive}

module _ (x : Sdk) (laws : IsSdk x) {redeem_pool : Bytes}
    (redeem_pool_address : x.bank.get_module_address redeem_pool_name ≡ some redeem_pool) where
  balance_lem :
      (b : x.bank.State) (a d : Bytes)
      → x.math.valid_denom d ≡ true
      → x.bank.get_balance b a d ≡ some (coin d (x.bank.held b a d))
  balance_lem b a d valid = rw (laws.bank_laws.get_balance_lem b a d, valid)

  -- A request that is not due is left alone.
  pub process-early :
      (ctx : Context) (req : RedeemRequest) (s : State x)
      → ltb_ℤ req.completiontime ctx.block_time ≡ false
      → process x ctx req s ≡ (ok tt, s)
  unfolding process
  process-early ctx req s early = rw early

  -- A request that is due, of a positive amount of a valid denomination that the redeem pool,
  -- which has an account, holds, for an account that may receive and is not the redeem pool: the
  -- collateral moves from the redeem pool to the account, and the request's key is deleted.
  pub process-paid :
      (ctx : Context) (req : RedeemRequest) (s : State x) (acc d : Bytes) (n : ℕ)
      → ltb_ℤ req.completiontime ctx.block_time ≡ true
      → x.acc_address_from_bech32 req.account ≡ some acc
      → x.bank.blocked acc ≡ false
      → acc ≢ redeem_pool
      → req.collateral ≡ coin d (suc n)
      → x.math.valid_denom d ≡ true
      → suc n ≤ x.bank.held s.bank redeem_pool d
      → (b : x.bank.State) × (process x ctx req s
          ≡ (ok tt, record { kv = x.kv.delete s.kv (request_key req.account); bank = b }))
        × Moved x.bank s.bank b redeem_pool acc (coin d (suc n) ∷ [])
  unfolding process delete_redeem_request
  process-paid ctx req s acc d n due address free apart amount valid enough =
      let covers = Covers-coin x.bank s.bank redeem_pool d (suc n) (
        omega (
          arith,
          enough,
          laws.bank_laws.module_unlocked s.bank redeem_pool_name d redeem_pool_address,
        )) in
      let (b, sent, mv) =
        (laws.bank_laws.to_account s.bank redeem_pool_name acc (coin d (suc n) ∷ [])
            redeem_pool_address free).goes_through
          (omega arith) covers in
      let grown : x.bank.held s.bank acc d < x.bank.held b acc d = omega (
        arith,
        rw (bytes_ne→false redeem_pool acc (λ e. apart (sym e))) at (mv.moved acc d),
        at-amount_self acc d (suc n),
      ) in
      (
        b,
        rw (
          due,
          address,
          amount,
          balance_lem s.bank acc d valid,
          new_coins-positive x laws d n valid,
          transfer,
          sent,
          settle,
          amount,
          balance_lem b acc d valid,
          lt→ltb (x.bank.held s.bank acc d + 0) (x.bank.held b acc d + 0) (omega (arith, grown)),
        ),
        mv,
      )

  -- A request that is due, of a positive amount of a valid denomination that the redeem pool,
  -- which has an account, does not hold, for a good address that may receive: nothing changes, and
  -- the request stays.
  pub process-short :
      (ctx : Context) (req : RedeemRequest) (s : State x) (acc d : Bytes) (n : ℕ)
      → ltb_ℤ req.completiontime ctx.block_time ≡ true
      → x.acc_address_from_bech32 req.account ≡ some acc
      → x.bank.blocked acc ≡ false
      → req.collateral ≡ coin d (suc n)
      → x.math.valid_denom d ≡ true
      → x.bank.held s.bank redeem_pool d < suc n
      → process x ctx req s ≡ (ok tt, s)
  unfolding process
  process-short ctx req s acc d n due address free amount valid short =
      let refused =
        (laws.bank_laws.to_account s.bank redeem_pool_name acc (coin d (suc n) ∷ [])
            redeem_pool_address free).fails
          (omega arith) d (rw (bytes_eq_refl d) (omega (arith, short))) in
      rw (
        due,
        address,
        amount,
        balance_lem s.bank acc d valid,
        new_coins-positive x laws d n valid,
        transfer,
        refused,
      )

  -- One of no coins at all panics in every state: its transfer goes through, and the balance of the
  -- account does not grow.
  pub process-nothing :
      (ctx : Context) (req : RedeemRequest) (acc d : Bytes)
      → ltb_ℤ req.completiontime ctx.block_time ≡ true
      → x.acc_address_from_bech32 req.account ≡ some acc
      → x.bank.blocked acc ≡ false
      → req.collateral ≡ coin d 0
      → x.math.valid_denom d ≡ true
      → (s : State x) → (s' : State x) × (process x ctx req s ≡ (panic, s'))
  unfolding process
  process-nothing ctx req acc d due address free amount valid s =
      let (b, sent, mv) =
        (laws.bank_laws.to_account s.bank redeem_pool_name acc [] redeem_pool_address
            free).goes_through
          tt (λ e. omega arith) in
      let nothing : x.math.new_coins (coin d 0) ≡ some [] =
        rw (laws.math_laws.new_coins_lem (coin d 0)) in
      (
        record s { bank = b },
        rw (
          due,
          address,
          amount,
          balance_lem s.bank acc d valid,
          nothing,
          transfer,
          sent,
          settle,
          amount,
          balance_lem b acc d valid,
          le→ltb_false (x.bank.held s.bank acc d + 0) (x.bank.held b acc d + 0) (
              omega
                (arith, mv.moved acc d, at-none redeem_pool acc 0 refl, at-none acc acc 0 refl)),
        ),
      )
