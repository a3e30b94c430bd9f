-- ===== src/Keeper/Blocks/Supply.antt =====
-- InvariantCheck, as BeginBlocker runs it, on a chain whose pools have accounts.
use halborn.Prelude.{
  ℕ, ◌+◌, ◌*◌, ◌^◌, ◌<◌, ◌≡◌, refl, ap, arith, Bytes, Bool, true, false, not, ◌&&◌, ◌||◌, some,
  none, ltb, if◌then◌else◌, Bool-cases, inl, inr,
}
use halborn.Prelude.Int.{pos, ◌+ℤ◌, ◌-ℤ◌, is_negative}
use halborn.Types.Params.{Params}
use halborn.Types.Keys.{collateral_pool_name, redeem_pool_name}
use halborn.Sdk.Coins.{coin}
use halborn.Sdk.Env.{Sdk, IsSdk}
use halborn.Keeper.Exec.{ok, panic, panic_if, or_panic, ◌>>=◌}
use halborn.Keeper.State.{State}
use halborn.Keeper.Params.{get_params}
use halborn.Keeper.Blocks.{pool_balance, check_supply, invariant_check, begin_blocker}

pos-add : (a b : ℕ) → pos a +ℤ pos b ≡ pos (a + b)
unfolding ◌+ℤ◌
pos-add a b = ground arith

pos-sub_negative : (a b : ℕ) → is_negative (pos a -ℤ pos b) ≡ ltb a b
unfolding ◌-ℤ◌
pos-sub_negative a b = ground arith

-- A test of whether to panic.
panic_if_lem :
    {S : Type 0} (t : Bool) (s : S) → panic_if t s ≡ (if t then (panic, s) else (ok tt, s))
panic_if_lem true s = refl
panic_if_lem false s = refl

module _ (x : Sdk) (pool redeem_pool : Bytes) where
  -- What both pools hold of a denomination.
  abbrev pub backing : x.bank.State → Bytes → ℕ
  backing b d = x.bank.held b pool d + x.bank.held b redeem_pool d

module _ (x : Sdk) (laws : IsSdk x) {pool redeem_pool : Bytes}
    (pool_address : x.bank.get_module_address collateral_pool_name ≡ some pool)
    (redeem_pool_address : x.bank.get_module_address redeem_pool_name ≡ some redeem_pool) where
  pool_balance_lem :
      (s : State x) (d : Bytes)
      → x.math.valid_denom d ≡ true
      → pool_balance x d s ≡ (ok (pos (backing x pool redeem_pool s.bank d)), s)
  pool_balance_lem s d valid =
      rw
        (
          pool_address,
          redeem_pool_address,
          laws.bank_laws.get_balance_lem s.bank pool d,
          valid,
          laws.bank_laws.get_balance_lem s.bank redeem_pool d,
          valid,
        )
        (ap (λ n. (ok n, s))
          (pos-add (x.bank.held s.bank pool d) (x.bank.held s.bank redeem_pool d)))

  -- The check where there is HAL, by whether each denomination is valid.
  check_supply_lem :
      (s : State x) (params : Params)
      → backing x pool redeem_pool s.bank params.collateral_metas.denom * 2 < 2 ^ 255
      → (v w : Bool) → x.math.valid_denom params.collateral_metas.denom ≡ v
      → x.math.valid_denom params.hal_meta.denom ≡ w
      → check_supply x params true s ≡ (
          if not v
            || not w
            || ltb
                (x.bank.total s.bank params.hal_meta.denom)
                (backing x pool redeem_pool s.bank params.collateral_metas.denom * 2)
          then (panic, s)
          else (ok tt, s))
  check_supply_lem s params small false w is_v is_w =
      rw (laws.bank_laws.get_balance_lem s.bank _ params.collateral_metas.denom, is_v)
  check_supply_lem s params small true w is_v is_w =
      let (d, product, truncated) =
        laws.math_laws.mul-exact (backing x pool redeem_pool s.bank params.collateral_metas.denom) 2
          small in
      rw
        (
          pool_balance_lem s params.collateral_metas.denom is_v,
          product,
          truncated,
          laws.bank_laws.get_supply_lem s.bank params.hal_meta.denom,
          is_w,
        )
        (by_supply w)
    where
      total : ℕ
      total = x.bank.total s.bank params.hal_meta.denom

      double : ℕ
      double = backing x pool redeem_pool s.bank params.collateral_metas.denom * 2

      by_supply :
          (w : Bool)
          → (or_panic (if w then some (coin params.hal_meta.denom total) else none) >>= λ c.
                panic_if (is_negative (c.amount -ℤ pos double)))
              s
            ≡ (if not w || ltb total double then (panic, s) else (ok tt, s))
      by_supply false = refl
      by_supply true = rw (pos-sub_negative total double) (panic_if_lem _ s)

  -- On a chain where both pools have accounts, with parameters that can be read and a double of
  -- the collateral of both pools that fits the decimals: BeginBlocker panics exactly if there is
  -- HAL and the denomination of the collateral or of HAL is not valid or the supply of HAL is less
  -- than twice the collateral of both pools; in all other cases it changes nothing.
  pub begin_blocker_lem :
      (s : State x) (params : Params)
      → get_params x s ≡ (ok params, s)
      → backing x pool redeem_pool s.bank params.collateral_metas.denom * 2 < 2 ^ 255
      → begin_blocker x s ≡ (
          if ltb 0 (x.bank.total s.bank params.hal_meta.denom)
            && (not (x.math.valid_denom params.collateral_metas.denom)
                || not (x.math.valid_denom params.hal_meta.denom)
                || ltb
                    (x.bank.total s.bank params.hal_meta.denom)
                    (backing x pool redeem_pool s.bank params.collateral_metas.denom * 2))
          then (panic, s)
          else (ok tt, s))
  unfolding begin_blocker invariant_check
  begin_blocker_lem s params stored small =
      elim (Bool-cases (ltb 0 (x.bank.total s.bank params.hal_meta.denom))) [
        | inl some_hal ↦
            rw (stored, laws.bank_laws.has_supply_lem s.bank params.hal_meta.denom, some_hal)
              (check_supply_lem s params small _ _ refl refl)
        | inr no_hal ↦
            rw (stored, laws.bank_laws.has_supply_lem s.bank params.hal_meta.denom, no_hal)
      ]
