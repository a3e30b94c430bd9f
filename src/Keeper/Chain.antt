-- ===== src/Keeper/Chain.antt =====
-- The chain over time: messages that are delivered, and blocks that begin and end. A message that
-- returns an error or panics leaves the state as it was, which is the SDK's rollback; a block whose
-- BeginBlocker or EndBlocker panics is not completed.
pub mod Frame
pub mod Handlers
pub mod Shows
pub mod Blocks
pub mod Tickets
use halborn.Prelude.{ℕ, ◌+◌, ◌≡◌, Bytes}
use halborn.Types.Messages.{
  MsgMintHal, MsgMintHalResponse, MsgRedeemCollateral, MsgRedeemCollateralResponse, MsgCreateTicket,
  MsgCreateTicketResponse, MsgUpdateParams,
}
use halborn.Sdk.Env.{Sdk}
use halborn.Keeper.Exec.{ok}
use halborn.Keeper.State.{State, Context}
use halborn.Keeper.MintHal.{mint_hal}
use halborn.Keeper.RedeemCollateral.{redeem_collateral}
use halborn.Keeper.CreateTicket.{create_ticket}
use halborn.Keeper.UpdateParams.{update_params}
use halborn.Keeper.Blocks.{begin_blocker, end_blocker}

module _ (x : Sdk) where
  -- The number counts the tickets that are made.
  pub data Step (s : State x) : ℕ → State x → Type 0 where
    mint_step :
        (msg : MsgMintHal) (r : MsgMintHalResponse) (s' : State x)
        → mint_hal x msg s ≡ (ok r, s')
        → Step s 0 s'
    redeem_step :
        (ctx : Context) (msg : MsgRedeemCollateral) (r : MsgRedeemCollateralResponse) (s' : State x)
        → redeem_collateral x ctx msg s ≡ (ok r, s')
        → Step s 0 s'
    update_step :
        (authority : Bytes) (msg : MsgUpdateParams) (s' : State x)
        → update_params x authority msg s ≡ (ok tt, s')
        → Step s 0 s'
    begin_step : (s' : State x) → begin_blocker x s ≡ (ok tt, s') → Step s 0 s'
    end_step : (ctx : Context) (s' : State x) → end_blocker x ctx s ≡ (ok tt, s') → Step s 0 s'
    ticket_step :
        (ctx : Context) (msg : MsgCreateTicket) (r : MsgCreateTicketResponse) (s' : State x)
        → create_ticket x ctx msg s ≡ (ok r, s')
        → Step s 1 s'

  pub data Reach : State x → ℕ → State x → Type 0 where
    here : (s : State x) → Reach s 0 s
    onwards :
        (s : State x) (k : ℕ) (s1 : State x) (n : ℕ) (s2 : State x)
        → Step s k s1
        → Reach s1 n s2
        → Reach s (k + n) s2
