-- ===== src/Keeper/Chain/Blocks.antt =====
-- What a block does at its start and its end leaves the tickets as they are.
use halborn.Prelude.{
  Bytes, Bool, true, false, not, if◌then◌else◌, List, [], ◌∷◌, Option, none, some,
}
use halborn.Prelude.Int.{pos, ltb_ℤ, is_negative, ◌+ℤ◌, ◌-ℤ◌}
use halborn.Types.Params.{Params}
use halborn.Types.Coin.{Coin}
use halborn.Types.Records.{RedeemRequest}
use halborn.Types.Keys.{collateral_pool_name, redeem_pool_name}
use halborn.Sdk.Bank.{Reply, done, failed, panicked}
use halborn.Sdk.Env.{Sdk, IsSdk}
use halborn.Keeper.Exec.{Outcome, ok, panic, Exec, pure}
use halborn.Keeper.State.{State, Context}
use halborn.Keeper.Holds.{on_return, on_panic, Holds-continue, Holds-or_panic, Holds-panic_if}
use halborn.Keeper.Requests.{
  request_key, delete_redeem_request, settle, transfer, pay, process, process_all, collect,
  get_all_redeem_requests, end_redeeming,
}
use halborn.Keeper.Blocks.{
  address_or_nil, pool_balance, check_supply, invariant_check, begin_blocker, end_blocker,
}
use halborn.Keeper.Chain.Frame.{Frame, Frame-trans, Kept, get_params-Kept, Frame-delete_request}

module _ (x : Sdk) (laws : IsSdk x) (kv : x.kv.Store) where
  pool_balance-Kept :
      (s : State x) (denom : Bytes) → Frame x kv s.kv → Kept x kv (pool_balance x denom s)
  pool_balance-Kept s denom h =
      let balance : State x → Bytes → Option Coin = λ s' name.
        x.bank.get_balance s'.bank (address_or_nil (x.bank.get_module_address name)) denom in
      Holds-continue (Holds-or_panic s h (balance s collateral_pool_name)) λ first s1 h1.
        Holds-continue (Holds-or_panic s1 h1 (balance s1 redeem_pool_name))
          λ second s2 h2. on_return (first.amount +ℤ second.amount) s2 h2

  check_supply-Kept :
      (s : State x) (params : Params) (has : Bool)
      → Frame x kv s.kv
      → Kept x kv (check_supply x params has s)
  check_supply-Kept s params false h = on_return tt s h
  check_supply-Kept s params true h =
      Holds-continue (pool_balance-Kept s params.collateral_metas.denom h) λ pool s0 h0.
        Holds-continue
          (Holds-or_panic s0 h0
            (x.math.mul (x.math.new_dec_from_int pool) (x.math.new_dec (pos 2))))
          λ product s1 h1.
            Holds-continue (Holds-or_panic s1 h1 (x.math.truncate_int product)) λ mintable s2 h2.
              Holds-continue
                (Holds-or_panic s2 h2 (x.bank.get_supply s2.bank params.hal_meta.denom))
                λ supply s3 h3. Holds-panic_if s3 h3 (is_negative (supply.amount -ℤ mintable))

  pub begin_blocker-Kept : (s : State x) → Frame x kv s.kv → Kept x kv (begin_blocker x s)
  unfolding begin_blocker invariant_check
  begin_blocker-Kept s h = Holds-continue (get_params-Kept x laws kv s h) λ params s1 h1.
      check_supply-Kept s1 params (x.bank.has_supply s1.bank params.hal_meta.denom) h1

  settle-Kept :
      (s : State x) (req : RedeemRequest) (acc : Bytes) (balance_before : Coin)
      → Frame x kv s.kv
      → Kept x kv (settle x req acc balance_before s)
  unfolding delete_redeem_request
  settle-Kept s req acc balance_before h =
      Holds-continue (Holds-or_panic s h (x.bank.get_balance s.bank acc req.collateral.denom))
        λ balance_after s1 h1.
          Holds-continue
            (Holds-panic_if s1 h1 (not (ltb_ℤ balance_before.amount balance_after.amount)))
            λ u s2 h2.
              on_return tt (record s2 { kv = x.kv.delete s2.kv (request_key req.account) })
                (Frame-trans x h2 (Frame-delete_request x laws s2.kv req.account))

  transfer-Kept :
      (s : State x) (req : RedeemRequest) (acc : Bytes) (balance_before : Coin) (coins : List Coin)
      → Frame x kv s.kv
      → Kept x kv (transfer x req acc balance_before coins s)
  transfer-Kept s req acc balance_before coins h =
      by_reply (x.bank.send_coins_from_module_to_account s.bank redeem_pool_name acc coins)
    where
      by_reply :
          (r : Reply x.bank.State)
          → Kept x kv (elim r as (λ _. Outcome (Unit {0}) × State x) [
            | done b ↦ settle x req acc balance_before (record s { bank = b })
            | failed ↦ (ok tt, s)
            | panicked ↦ (panic, s)
          ])
      by_reply (done b) = settle-Kept (record s { bank = b }) req acc balance_before h
      by_reply failed = on_return tt s h
      by_reply panicked = on_panic s

  pay-Kept :
      (s : State x) (req : RedeemRequest) (o : Option Bytes)
      → Frame x kv s.kv
      → Kept x kv (pay x req o s)
  pay-Kept s req none h = on_return tt s h
  pay-Kept s req (some acc) h =
      Holds-continue (Holds-or_panic s h (x.bank.get_balance s.bank acc req.collateral.denom))
        λ balance_before s1 h1.
          Holds-continue (Holds-or_panic s1 h1 (x.math.new_coins req.collateral))
            λ coins s2 h2. transfer-Kept s2 req acc balance_before coins h2

  either-Kept :
      (t : Bool) (m n : Exec (State x) (Unit {0})) (s : State x)
      → Kept x kv (m s)
      → Kept x kv (n s)
      → Kept x kv ((if t then m else n) s)
  either-Kept true m n s h k = h
  either-Kept false m n s h k = k

  process-Kept :
      (s : State x) (ctx : Context) (req : RedeemRequest)
      → Frame x kv s.kv
      → Kept x kv (process x ctx req s)
  unfolding process
  process-Kept s ctx req h =
      either-Kept (ltb_ℤ req.completiontime ctx.block_time)
        (pay x req (x.acc_address_from_bech32 req.account)) (pure tt) s
        (pay-Kept s req (x.acc_address_from_bech32 req.account) h) (on_return tt s h)

  process_all-Kept :
      (ctx : Context) (reqs : List RedeemRequest) (s : State x)
      → Frame x kv s.kv
      → Kept x kv (process_all x ctx reqs s)
  unfolding process_all
  process_all-Kept ctx [] s h = on_return tt s h
  process_all-Kept ctx (req ∷ reqs) s h =
      Holds-continue (process-Kept s ctx req h) λ u s1 h1. process_all-Kept ctx reqs s1 h1

  pub end_blocker-Kept :
      (s : State x) (ctx : Context) → Frame x kv s.kv → Kept x kv (end_blocker x ctx s)
  unfolding end_blocker end_redeeming get_all_redeem_requests
  end_blocker-Kept s ctx h =
      Holds-continue
        (Holds-continue (Holds-or_panic s h (x.kv.entries s.kv))
          λ es s1 h1. on_return (collect x es) s1 h1)
        λ reqs s2 h2. process_all-Kept ctx reqs s2 h2
