-- ===== src/Keeper/CreateTicket.antt =====
-- The handler of MsgCreateTicket: x/hal/keeper/msg_server_create_ticket.go.
pub mod Treasury
use halborn.Prelude.{[], length, not}
use halborn.Prelude.Int.{pos}
use halborn.Types.Messages.{MsgCreateTicket, MsgCreateTicketResponse}
use halborn.Types.Keys.{treasury_key}
use halborn.Sdk.Env.{Sdk}
use halborn.Keeper.Exec.{
  Exec, pure, ◌>>=◌, ◌>>◌, gets, or_err, or_panic, err_if, invalid_address, insufficient_funds,
}
use halborn.Keeper.State.{State, Context, bank_call}
use halborn.Keeper.Params.{get_params}
use halborn.Keeper.Tickets.{append_ticket}

module _ (x : Sdk) where
  -- One HAL is paid for each byte of the issue.
  unfoldable pub create_ticket : Context → MsgCreateTicket → Exec (State x) MsgCreateTicketResponse
  create_ticket ctx msg = do
    acc ← or_err invalid_address (x.acc_address_from_bech32 msg.creator)
    params ← get_params x
    hal_coin ← or_panic (x.math.new_coin params.hal_meta.denom (pos (length msg.issue)))
    enough ← gets (λ s. x.bank.has_balance s.bank acc hal_coin)
    err_if (not enough) insufficient_funds
    coins ← or_panic (x.math.new_coins hal_coin)
    bank_call x insufficient_funds
        (λ b. x.bank.send_coins_from_account_to_module b acc treasury_key coins)
    id ←
        append_ticket x ctx
          (record { author = msg.author; issue = msg.issue; id = 0; additional_info = [] })
    pure (record { id = id })
