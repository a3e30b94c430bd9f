-- ===== src/Keeper/Requests.antt =====
-- The redeem requests of the store, and the payment of those that are due: x/hal/keeper/keeper.go.
pub mod Collect
pub mod Halt
pub mod Payment
use halborn.Prelude.{Bytes, List, [], ◌∷◌, ◌++◌, Option, none, some, not, if◌then◌else◌}
use halborn.Prelude.Int.{ltb_ℤ}
use halborn.Types.Coin.{Coin}
use halborn.Types.Records.{RedeemRequest}
use halborn.Types.Keys.{redeem_pool_name, redeem_request_key_prefix}
use halborn.Wire.Result as Wire
use halborn.Wire.RedeemRequest as Codec
use halborn.Sdk.Bank.{done, failed, panicked}
use halborn.Sdk.Env.{Sdk}
use halborn.Keeper.Exec.{ok, panic, Exec, pure, ◌>>=◌, ◌>>◌, gets, or_panic, modify, panic_if}
use halborn.Keeper.State.{State, Context}

abbrev pub request_key : Bytes → Bytes
request_key account = redeem_request_key_prefix ++ account

-- What does not unmarshal is logged and left out.
keep : Wire.Result RedeemRequest → List RedeemRequest → List RedeemRequest
keep (Wire.ok r) rs = r ∷ rs
keep (Wire.err e) rs = rs
keep Wire.stuck rs = rs

module _ (x : Sdk) where
  unfoldable pub set_redeem_request : RedeemRequest → Exec (State x) (Unit {0})
  set_redeem_request request = do
    bz ← or_panic (Codec.marshal x.gogo request)
    modify (λ s. record s { kv = x.kv.set s.kv (request_key request.account) bz })

  unfoldable pub delete_redeem_request : Bytes → Exec (State x) (Unit {0})
  delete_redeem_request account =
      modify (λ s. record s { kv = x.kv.delete s.kv (request_key account) })

  -- The loop of GetAllRedeemRequests, over every value of the store.
  unfoldable pub collect : List (Bytes × Bytes) → List RedeemRequest
  unfolding keep
  collect [] = []
  collect ((key, value) ∷ entries) = keep (Codec.unmarshal x.gogo value) (collect entries)

  unfoldable pub get_all_redeem_requests : Exec (State x) (List RedeemRequest)
  unfolding collect
  get_all_redeem_requests = do
    entries ← gets (λ s. x.kv.entries s.kv)
    es ← or_panic entries
    pure (collect es)

  -- After a transfer that went through: the balance must have grown.
  abbrev pub settle : RedeemRequest → Bytes → Coin → Exec (State x) (Unit {0})
  settle req acc balance_before = do
    balance ← gets (λ s. x.bank.get_balance s.bank acc req.collateral.denom)
    balance_after ← or_panic balance
    panic_if (not (ltb_ℤ balance_before.amount balance_after.amount))
    delete_redeem_request req.account

  abbrev pub transfer : RedeemRequest → Bytes → Coin → List Coin → Exec (State x) (Unit {0})
  transfer req acc balance_before coins s =
      elim (x.bank.send_coins_from_module_to_account s.bank redeem_pool_name acc coins) [
        | done b ↦ settle req acc balance_before (record s { bank = b })
        | failed ↦ (ok tt, s)
        | panicked ↦ (panic, s)
      ]

  abbrev pub pay : RedeemRequest → Option Bytes → Exec (State x) (Unit {0})
  pay req none = pure tt
  pay req (some acc) = do
    balance ← gets (λ s. x.bank.get_balance s.bank acc req.collateral.denom)
    balance_before ← or_panic balance
    coins ← or_panic (x.math.new_coins req.collateral)
    transfer req acc balance_before coins

  -- The body of the loop of EndRedeeming.
  unfoldable pub process : Context → RedeemRequest → Exec (State x) (Unit {0})
  unfolding delete_redeem_request
  process ctx req =
      if ltb_ℤ req.completiontime ctx.block_time
      then pay req (x.acc_address_from_bech32 req.account)
      else pure tt

  unfoldable pub process_all : Context → List RedeemRequest → Exec (State x) (Unit {0})
  unfolding process
  process_all ctx [] = pure tt
  process_all ctx (req ∷ reqs) = do process ctx req; process_all ctx reqs

  unfoldable pub end_redeeming : Context → Exec (State x) (Unit {0})
  unfolding process_all get_all_redeem_requests
  end_redeeming ctx = do reqs ← get_all_redeem_requests; process_all ctx reqs
