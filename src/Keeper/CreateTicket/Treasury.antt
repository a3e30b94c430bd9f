-- ===== src/Keeper/CreateTicket/Treasury.antt =====
-- CreateTicket, and the account that is paid for a ticket.
use halborn.Prelude.{
  ℕ, suc, ◌+◌, ◌<◌, ◌≤◌, ◌≡◌, arith, Bytes, true, [], ◌∷◌, some, none, length, le→leb, lt→leb_false,
}
use halborn.Types.Params.{Params}
use halborn.Types.Messages.{MsgCreateTicket}
use halborn.Types.Keys.{treasury_key}
use halborn.Sdk.Bank.{Moved, spendable}
use halborn.Sdk.Coins.{coin, Covers-coin}
use halborn.Sdk.Env.{Sdk, IsSdk}
use halborn.Keeper.Exec.{ok, err, panic, insufficient_funds}
use halborn.Keeper.State.{State, Context, bank_call}
use halborn.Keeper.Params.{get_params}
use halborn.Keeper.Tickets.{append_ticket}
use halborn.Keeper.CreateTicket.{create_ticket}
use halborn.Keeper.MintHal.Effects.{new_coin-valid, new_coins-positive}

module _ (x : Sdk) where
  -- What a message must be like to reach the bank: a good address, and an issue that is not empty.
  pub record Accepted (s : State x) (msg : MsgCreateTicket) (acc : Bytes) (params : Params) (n : ℕ)
      : Type 0 where
    pub creator : x.acc_address_from_bech32 msg.creator ≡ some acc
    pub stored : get_params x s ≡ (ok params, s)
    pub size : length msg.issue ≡ suc n
    pub hal_valid : x.math.valid_denom params.hal_meta.denom ≡ true

module _ (x : Sdk) (laws : IsSdk x) where
  -- CreateTicket, under the same conditions on the message: a creator with less HAL than the issue
  -- has bytes gets an error, and nothing changes.
  pub create_ticket-poor :
      (ctx : Context) (s : State x) (msg : MsgCreateTicket) (acc : Bytes) (params : Params) (n : ℕ)
      → Accepted x s msg acc params n
      → x.bank.held s.bank acc params.hal_meta.denom < suc n
      → create_ticket x ctx msg s ≡ (err insufficient_funds, s)
  unfolding create_ticket
  create_ticket-poor ctx s msg acc params n h poor = rw (
    h.creator,
    h.stored,
    h.size,
    new_coin-valid x laws params.hal_meta.denom (suc n) h.hal_valid,
    laws.bank_laws.has_balance_lem s.bank acc (coin params.hal_meta.denom (suc n)) h.hal_valid,
    lt→leb_false (suc n + 0) (x.bank.held s.bank acc params.hal_meta.denom + 0)
        (omega (arith, poor)),
  )

  -- CreateTicket, for a message with a good creator, an issue that is not empty and a valid
  -- denomination of HAL: where the treasury has no account, the call panics for a creator who has
  -- enough HAL.
  pub create_ticket-no_treasury :
      (ctx : Context) (s : State x) (msg : MsgCreateTicket) (acc : Bytes) (params : Params) (n : ℕ)
      → Accepted x s msg acc params n
      → suc n ≤ x.bank.held s.bank acc params.hal_meta.denom
      → x.bank.get_module_address treasury_key ≡ none
      → create_ticket x ctx msg s ≡ (panic, s)
  unfolding create_ticket
  create_ticket-no_treasury ctx s msg acc params n h rich missing = rw (
    h.creator,
    h.stored,
    h.size,
    new_coin-valid x laws params.hal_meta.denom (suc n) h.hal_valid,
    laws.bank_laws.has_balance_lem s.bank acc (coin params.hal_meta.denom (suc n)) h.hal_valid,
    le→leb (suc n + 0) (x.bank.held s.bank acc params.hal_meta.denom + 0) (omega (arith, rich)),
    new_coins-positive x laws params.hal_meta.denom n h.hal_valid,
    bank_call,
    laws.bank_laws.from_account_unknown s.bank acc treasury_key
        (coin params.hal_meta.denom (suc n) ∷ []) missing,
  )

  -- Where there is one, a creator with enough HAL that is not locked pays one HAL for each byte of the
  -- issue, and what is appended is a ticket with the author and the issue of the message.
  pub create_ticket-paid :
      (ctx : Context) (s : State x) (msg : MsgCreateTicket) (acc : Bytes) (params : Params) (n : ℕ)
      {treasury : Bytes}
      → Accepted x s msg acc params n
      → suc n ≤ spendable x.bank s.bank acc params.hal_meta.denom
      → x.bank.get_module_address treasury_key ≡ some treasury
      → (b : x.bank.State) × Moved x.bank s.bank b acc treasury
          (coin params.hal_meta.denom (suc n) ∷ [])
        × ((s' : State x) (id : ℕ)
            → append_ticket x ctx
                (record { author = msg.author; issue = msg.issue; id = 0; additional_info = [] })
                (record s { bank = b })
              ≡ (ok id, s')
            → create_ticket x ctx msg s ≡ (ok (record { id = id }), s'))
  unfolding create_ticket
  create_ticket-paid ctx s msg acc params n h rich named =
      let d = params.hal_meta.denom in
      let (b, sent, mv) =
        (laws.bank_laws.from_account s.bank acc treasury_key (coin d (suc n) ∷ [])
            named).goes_through
          (omega arith) (Covers-coin x.bank s.bank acc d (suc n) rich) in
      (
        b,
        mv,
        λ s' id appended. rw (
          h.creator,
          h.stored,
          h.size,
          new_coin-valid x laws d (suc n) h.hal_valid,
          laws.bank_laws.has_balance_lem s.bank acc (coin d (suc n)) h.hal_valid,
          le→leb (suc n + 0) (x.bank.held s.bank acc d + 0) (omega (arith, rich)),
          new_coins-positive x laws d n h.hal_valid,
          bank_call,
          sent,
          appended,
        ),
      )
