-- ===== src/Keeper/Chain/Tickets.antt =====
-- Over any sequence of messages and blocks, the tickets are a log that only grows.
use halborn.Prelude.{
  ℕ, ◌+◌, ◌<◌, ◌≤◌, ◌≡◌, ◌∙◌, refl, arith, Bytes, [], ◌∷◌, ◌++◌, append_assoc, length,
  length-append, Option-cases, inl, inr, not,
}
use halborn.Prelude.Int.{pos}
use halborn.Types.Records.{Ticket}
use halborn.Types.Messages.{MsgCreateTicket}
use halborn.Types.Keys.{treasury_key}
use halborn.Wire.Ticket as Codec
use halborn.Sdk.Env.{Sdk, IsSdk}
use halborn.Keeper.Exec.{invalid_address, insufficient_funds}
use halborn.Keeper.State.{State, Context}
use halborn.Keeper.Holds.{
  Holds, on_return, on_panic, Holds-continue, Holds-or_err, Holds-or_panic, Holds-err_if, Holds-ok,
}
use halborn.Keeper.Tickets.{completed, append_ticket}
use halborn.Keeper.Tickets.Log.{Log}
use halborn.Keeper.Tickets.RoundTrip.{
  counter_id, after, appended, after-other, after_self, after_counted,
}
use halborn.Keeper.CreateTicket.{create_ticket}
use halborn.Keeper.Chain.{
  Step, Reach, mint_step, redeem_step, update_step, begin_step, end_step, ticket_step, here,
  onwards,
}
use halborn.Keeper.Chain.Frame.{Frame-refl, get_params-Kept, bank-Kept}
use halborn.Keeper.Chain.Handlers.{mint_hal-Kept, redeem_collateral-Kept, update_params-Kept}
use halborn.Keeper.Chain.Blocks.{begin_blocker-Kept, end_blocker-Kept}
use halborn.Keeper.Chain.Shows.{AllStored, no_tickets, one_more, Shows, Shows-moves}

module _ (x : Sdk) (laws : IsSdk x) where
  AllStored-after :
      (s : State x) (log : Log) (count : ℕ) (bz : Bytes)
      → length log ≤ count
      → count < counter_id
      → AllStored x s log
      → AllStored x (after x laws s count bz) log
  AllStored-after s _ count bz below small no_tickets = no_tickets
  AllStored-after s _ count bz below small (one_more t log h rest) =
      one_more t log
        (record {
          value = h.value;
          found =
              after-other x laws s count bz (length log) (omega arith) (omega arith) (omega arith)
                (omega arith)
              ∙ h.found;
          written = h.written;
        })
        (AllStored-after s log count bz (omega arith) small rest)

  -- One more ticket, on top of the log.
  abbrev Grown : Log → State x → Type 0
  Grown log s' = (t : Ticket) × Shows x s' (t ∷ log)

  append_ticket-Grown :
      (ctx : Context) (post : Ticket) (s : State x) (log : Log)
      → length log < counter_id
      → Shows x s log
      → Holds (λ id s'. Grown log s') (append_ticket x ctx post s)
  unfolding append_ticket
  append_ticket-Grown ctx post s log small h =
      let count = length log in
      elim (Option-cases (Codec.marshal (completed x ctx post count))) [
        | inl fails ↦ rw (h.counts, fails) (on_panic s)
        | inr (bz, written) ↦
            rw (appended x laws ctx post s count bz h.counts (omega arith) written) (
              on_return count (after x laws s count bz) (
                completed x ctx post count,
                record {
                  counts = after_counted x laws s count bz (omega arith);
                  tickets =
                      one_more _ log
                        (record {
                          value = bz;
                          found = after_self x laws s count bz (omega arith) (omega arith);
                          written = written;
                        })
                        (AllStored-after s log count bz (omega arith) small h.tickets);
                },
              ))
      ]

  create_ticket-Grown :
      (ctx : Context) (msg : MsgCreateTicket) (s : State x) (log : Log)
      → length log < counter_id
      → Shows x s log
      → Holds (λ r s'. Grown log s') (create_ticket x ctx msg s)
  unfolding create_ticket
  create_ticket-Grown ctx msg s log small h =
      Holds-continue
        (Holds-or_err s (Frame-refl x s.kv) invalid_address (x.acc_address_from_bech32 msg.creator))
        λ acc s1 h1. Holds-continue (get_params-Kept x laws s.kv s1 h1) λ params s2 h2.
          Holds-continue
            (Holds-or_panic s2 h2 (x.math.new_coin params.hal_meta.denom (pos (length msg.issue))))
            λ hal_coin s3 h3.
              Holds-continue
                (Holds-err_if s3 h3 (not (x.bank.has_balance s3.bank acc hal_coin))
                  insufficient_funds)
                λ u s4 h4.
                  Holds-continue (Holds-or_panic s4 h4 (x.math.new_coins hal_coin)) λ coins s5 h5.
                    Holds-continue
                      (bank-Kept x laws s.kv s5 insufficient_funds
                        (λ b. x.bank.send_coins_from_account_to_module b acc treasury_key coins) h5)
                      λ v s6 h6.
                        Holds-continue
                          (append_ticket-Grown ctx
                            (record {
                              author = msg.author;
                              issue = msg.issue;
                              id = 0;
                              additional_info = [];
                            })
                            s6 log small (Shows-moves x s s6 log h6 h))
                          λ id s7 h7. on_return (record { id = id }) s7 h7

  -- What a step adds to the log.
  Step-Shows :
      (s : State x) (k : ℕ) (s' : State x) (log : Log)
      → length log + k ≤ counter_id
      → Step x s k s'
      → Shows x s log
      → (new : Log) × (length new ≡ k) × Shows x s' (new ++ log)
  Step-Shows s _ _ log room (mint_step msg r s' e) h = (
    [],
    refl,
    Shows-moves x s s' log (Holds-ok _ r s' (mint_hal-Kept x laws s.kv s msg (Frame-refl x s.kv)) e)
        h,
  )
  Step-Shows s _ _ log room (redeem_step ctx msg r s' e) h = (
    [],
    refl,
    Shows-moves x s s' log
        (Holds-ok _ r s' (redeem_collateral-Kept x laws s.kv s ctx msg (Frame-refl x s.kv)) e) h,
  )
  Step-Shows s _ _ log room (update_step authority msg s' e) h = (
    [],
    refl,
    Shows-moves x s s' log
        (Holds-ok _ tt s' (update_params-Kept x laws s.kv s authority msg (Frame-refl x s.kv)) e) h,
  )
  Step-Shows s _ _ log room (begin_step s' e) h = (
    [],
    refl,
    Shows-moves x s s' log
        (Holds-ok _ tt s' (begin_blocker-Kept x laws s.kv s (Frame-refl x s.kv)) e) h,
  )
  Step-Shows s _ _ log room (end_step ctx s' e) h = (
    [],
    refl,
    Shows-moves x s s' log
        (Holds-ok _ tt s' (end_blocker-Kept x laws s.kv s ctx (Frame-refl x s.kv)) e) h,
  )
  Step-Shows s _ _ log room (ticket_step ctx msg r s' e) h =
      let (t, grown) = Holds-ok _ r s' (create_ticket-Grown ctx msg s log (omega arith) h) e in
      (t ∷ [], refl, grown)

  -- From a state whose tickets are a log, any sequence of messages that return and of blocks that
  -- begin and end, in any order, with n calls of CreateTicket that succeed and room for them below
  -- the id of the counter's key, leads to a state whose tickets are the same log with n new
  -- tickets on top: the counter is the length of the log, and at the key of each ticket, old or
  -- new, stands what Ticket.Marshal makes of it.
  pub Reach-Shows :
      (s : State x) (n : ℕ) (s' : State x) (log : Log)
      → length log + n ≤ counter_id
      → Reach x s n s'
      → Shows x s log
      → (new : Log) × (length new ≡ n) × Shows x s' (new ++ log)
  Reach-Shows s _ _ log room (here _) h = ([], refl, h)
  Reach-Shows s _ _ log room (onwards _ k s1 n s2 step rest) h =
      let (first, k_lem, h1) = Step-Shows s k s1 log (omega arith) step h in
      let longer = length-append first log in
      let (later, n_lem, h2) = Reach-Shows s1 n s2 (first ++ log) (omega arith) rest h1 in
      (
        later ++ first,
        omega (arith, length-append later first),
        rw (append_assoc later first log) h2,
      )
