-- ===== src/Types/Messages.antt =====
-- The messages of the module and their responses (x/hal/types/tx.pb.go), and the genesis state.
use halborn.Prelude.{ℕ, Bytes}
use halborn.Prelude.Int.{ℤ}
use halborn.Types.Coin.{Coin}
use halborn.Types.Params.{Params, default_params}

pub record MsgMintHal : Type 0 where
  pub creator : Bytes
  pub collateral_amount : Coin

pub record MsgMintHalResponse : Type 0 where
  pub minted_amount : Coin

pub record MsgRedeemCollateral : Type 0 where
  pub creator : Bytes
  pub hal_amount : Coin

pub record MsgRedeemCollateralResponse : Type 0 where
  pub burned_amount : Coin
  pub completion_time : ℤ

pub record MsgCreateTicket : Type 0 where
  pub creator : Bytes
  pub author : Bytes
  pub issue : Bytes

pub record MsgCreateTicketResponse : Type 0 where
  pub id : ℕ

-- The constructors of x/hal/types/message_*.go.
abbrev pub new_msg_mint_hal : Bytes → Coin → MsgMintHal
new_msg_mint_hal creator amount = record { creator = creator; collateral_amount = amount }

abbrev pub new_msg_redeem_collateral : Bytes → Coin → MsgRedeemCollateral
new_msg_redeem_collateral creator amount = record { creator = creator; hal_amount = amount }

abbrev pub new_msg_create_ticket : Bytes → Bytes → Bytes → MsgCreateTicket
new_msg_create_ticket creator author issue = record {
  creator = creator;
  author = author;
  issue = issue;
}

pub record MsgUpdateParams : Type 0 where
  pub authority : Bytes
  pub params : Params

pub record GenesisState : Type 0 where
  pub params : Params

unfoldable pub default_genesis : GenesisState
default_genesis = record { params = default_params }
