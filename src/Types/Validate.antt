-- ===== src/Types/Validate.antt =====
-- What makes parameters and messages valid: Params.Validate of x/hal/types/params.go, ValidateBasic of
-- the messages (x/hal/types/message_*.go, msg_update_params.go) and GenesisState.Validate.
use halborn.Prelude.{◌≡◌, ◌<◌, ◌≤◌, ◌*◌, arith, Bytes, ◌↔◌, if◌then◌else◌, Option, none, some, ◌||◌}
use halborn.Prelude.Int.{ℤ, pos, ltb_ℤ, leb_ℤ, pos_part, neg_part}
use halborn.Types.Params.{Params, TokenMeta, hour}
use halborn.Types.Messages.{
  MsgUpdateParams, MsgMintHal, MsgRedeemCollateral, MsgCreateTicket, GenesisState,
}

-- `nil`, or why not
pub data Validity : Type 0 where
  valid invalid_duration invalid_entries bad_address : Validity

abbrev four_weeks : ℤ
four_weeks = pos (4 * 7 * 24 * hour)

abbrev validate_redeem_dur : ℤ → Validity
validate_redeem_dur d = if leb_ℤ d (pos 0) || ltb_ℤ four_weeks d then invalid_duration else valid

abbrev validate_max_redeem_entries : ℤ → Validity
validate_max_redeem_entries e = if ltb_ℤ e (pos 0) then invalid_entries else valid

abbrev validate_token_meta : TokenMeta → Validity
validate_token_meta m = valid

-- `if err := …; err != nil { return err }`
infixr 20 ◌then_check◌
abbrev ◌then_check◌ : Validity → Validity → Validity
valid then_check w = w
invalid_duration then_check w = invalid_duration
invalid_entries then_check w = invalid_entries
bad_address then_check w = bad_address

unfoldable pub validate : Params → Validity
validate p =
    validate_redeem_dur p.redeem_dur
    then_check validate_max_redeem_entries p.max_redeem_entries
    then_check validate_token_meta p.collateral_metas
    then_check validate_token_meta p.hal_meta

unfoldable pub validate_genesis : GenesisState → Validity
validate_genesis gs = validate gs.params

abbrev check_address : (Bytes → Option Bytes) → Bytes → Validity → Validity
check_address from_bech32 a w = elim (from_bech32 a) [ none ↦ bad_address | some b ↦ w ]

module _ (from_bech32 : Bytes → Option Bytes) where
  unfoldable pub validate_update_params : MsgUpdateParams → Validity
  unfolding validate
  validate_update_params m = check_address from_bech32 m.authority (validate m.params)

  unfoldable pub validate_mint_hal : MsgMintHal → Validity
  validate_mint_hal msg = check_address from_bech32 msg.creator valid

  unfoldable pub validate_redeem_collateral : MsgRedeemCollateral → Validity
  validate_redeem_collateral msg = check_address from_bech32 msg.creator valid

  unfoldable pub validate_create_ticket : MsgCreateTicket → Validity
  validate_create_ticket msg = check_address from_bech32 msg.creator valid

-- Where the authority is an address, the parameters decide.
pub validate-update_params :
    (from_bech32 : Bytes → Option Bytes) (m : MsgUpdateParams) (acc : Bytes)
    → from_bech32 m.authority ≡ some acc
    → validate_update_params from_bech32 m ≡ validate m.params
unfolding validate_update_params
validate-update_params from_bech32 m acc h = rw (validate_update_params, check_address, h)

-- Params.Validate accepts exactly the parameters whose duration is positive and at most four weeks
-- and whose number of entries is not negative; the two tokens do not matter.
pub validate_iff :
    (p : Params)
    → (validate p ≡ valid) ↔ (
        (0 < pos_part p.redeem_dur)
        × (pos_part p.redeem_dur ≤ 4 * 7 * 24 * hour)
        × (neg_part p.max_redeem_entries ≡ 0))
unfolding validate
validate_iff p = ground arith
