-- ===== src/Keeper/Requests/Halt.antt =====
-- A request that panics, and the end of the block in which it is due.
use halborn.Prelude.{
  ◌≡◌, ◌⊎◌, inl, inr, refl, Bytes, Bool, true, false, List, [], ◌∷◌, Option, some, none,
  if◌then◌else◌,
}
use halborn.Prelude.Int.{ltb_ℤ}
use halborn.Types.Coin.{Coin}
use halborn.Types.Records.{RedeemRequest}
use halborn.Types.Keys.{redeem_pool_name}
use mathlib.Core.List.{Memᴰ}
use halborn.Wire.Result as Wire
use halborn.Wire.RedeemRequest as Codec
use halborn.Sdk.Coins.{coin}
use halborn.Sdk.Bank.{done, failed, panicked}
use halborn.Sdk.Env.{Sdk, IsSdk}
use halborn.Keeper.Exec.{Outcome, ok, panic, Exec, panic_if, or_panic, ◌>>◌, ◌>>=◌, modify}
use halborn.Keeper.State.{State, Context}
use halborn.Keeper.Requests.{
  process, process_all, end_redeeming, settle, transfer, pay, delete_redeem_request,
}
use halborn.Keeper.Requests.Collect.{get_all_redeem_requests-value}
use halborn.Keeper.Requests.Payment.{process-nothing}

-- A run that ends well or panics, and returns no error.
module _ {S : Type 0} where
  abbrev Ends : Outcome (Unit {0}) × S → Type 0
  Ends r = ((s : S) × (r ≡ (ok tt, s))) ⊎ ((s : S) × (r ≡ (panic, s)))

  panic_if-Ends : (t : Bool) (s : S) (f : S → S) → Ends ((panic_if t >> modify f) s)
  panic_if-Ends true s f = inr (s, refl)
  panic_if-Ends false s f = inl (f s, refl)

  or_panic-Ends :
      {A : Type 0} (o : Option A) (k : A → Exec S (Unit {0})) (s : S)
      → ((a : A) → Ends (k a s))
      → Ends ((or_panic o >>= k) s)
  or_panic-Ends none k s h = inr (s, refl)
  or_panic-Ends (some a) k s h = h a

module _ (x : Sdk) (req : RedeemRequest) where
  settle-Ends :
      (acc : Bytes) (balance_before : Coin) (s : State x) → Ends (settle x req acc balance_before s)
  unfolding delete_redeem_request
  settle-Ends acc balance_before s =
      or_panic-Ends (x.bank.get_balance s.bank acc req.collateral.denom) _ s
        (λ balance_after. panic_if-Ends _ s _)

  transfer-Ends :
      (acc : Bytes) (balance_before : Coin) (coins : List Coin) (s : State x)
      → Ends (transfer x req acc balance_before coins s)
  transfer-Ends acc balance_before coins s =
      elim (x.bank.send_coins_from_module_to_account s.bank redeem_pool_name acc coins)
        as (λ r. Ends {S = State x} (elim r [
          | done b ↦ settle x req acc balance_before (record s { bank = b })
          | failed ↦ (ok tt, s)
          | panicked ↦ (panic, s)
        ])) [
          | done b ↦ settle-Ends acc balance_before (record s { bank = b })
          | failed ↦ inl (s, refl)
          | panicked ↦ inr (s, refl)
        ]

  pay-Ends : (o : Option Bytes) (s : State x) → Ends (pay x req o s)
  pay-Ends none s = inl (s, refl)
  pay-Ends (some acc) s =
      or_panic-Ends (x.bank.get_balance s.bank acc req.collateral.denom) _ s λ balance_before.
        or_panic-Ends (x.math.new_coins req.collateral) (transfer x req acc balance_before) s
          (λ coins. transfer-Ends acc balance_before coins s)

  process-Ends : (ctx : Context) (s : State x) → Ends (process x ctx req s)
  unfolding process
  process-Ends ctx s = go (ltb_ℤ req.completiontime ctx.block_time)
    where
      go :
          (t : Bool)
          → Ends (
              (if t then pay x req (x.acc_address_from_bech32 req.account) else (λ s. (ok tt, s)))
                s)
      go true = pay-Ends (x.acc_address_from_bech32 req.account) s
      go false = inl (s, refl)

module _ (x : Sdk) (ctx : Context) (r : RedeemRequest) where
  -- A request that panics in every state panics wherever it stands among the requests.
  process_all-panic :
      ((s : State x) → (s' : State x) × (process x ctx r s ≡ (panic, s')))
      → (rs : List RedeemRequest) → Memᴰ r rs
      → (s : State x) → (s' : State x) × (process_all x ctx rs s ≡ (panic, s'))
  unfolding process_all
  process_all-panic h [] m s = elim m [ ]
  process_all-panic h (q ∷ rs) (Memᴰ.head same) s = let (s', e) = h s in (s', rw (← same, e))
  process_all-panic h (q ∷ rs) (Memᴰ.tail m) s = elim (process-Ends x q ctx s) [
    | inr (s', e) ↦ (s', rw e)
    | inl (s', e) ↦ let (s2, e2) = process_all-panic h rs m s' in (s2, rw (e, e2))
  ]

module _ (x : Sdk) (laws : IsSdk x) {redeem_pool : Bytes}
    (redeem_pool_address : x.bank.get_module_address redeem_pool_name ≡ some redeem_pool) where
  -- If a value of the store unmarshals as a request of no coins for an account that may receive, the
  -- end of every block after its completion time panics.
  pub end_redeeming-nothing :
      (ctx : Context) (s : State x) (k v : Bytes) (req : RedeemRequest) (acc d : Bytes)
      → x.kv.get s.kv k ≡ some v
      → Codec.unmarshal x.gogo v ≡ Wire.ok req
      → ltb_ℤ req.completiontime ctx.block_time ≡ true
      → x.acc_address_from_bech32 req.account ≡ some acc
      → x.bank.blocked acc ≡ false
      → req.collateral ≡ coin d 0
      → x.math.valid_denom d ≡ true
      → (s' : State x) × (end_redeeming x ctx s ≡ (panic, s'))
  unfolding end_redeeming
  end_redeeming-nothing ctx s k v req acc d found read due address free amount valid =
      let (rs, all, m) = get_all_redeem_requests-value x laws s k v req found read in
      let (s', e) =
        process_all-panic x ctx req
          (process-nothing x laws redeem_pool_address ctx req acc d due address free amount valid)
          rs m s in
      (s', rw (all, e))
