-- ===== src/Tests/ChainRuns.antt =====
-- A chain that sells a ticket.
use halborn.Prelude.{◌≡◌, ◌<◌, ◌^◌, refl, arith, codes, [], ◌++◌, length}
use halborn.Prelude.Int.{pos}
use halborn.Types.Params.{default_params}
use halborn.Types.Records.{Ticket}
use halborn.Types.Messages.{MsgCreateTicket}
use halborn.Wire.Writer.{varint_loop}
use halborn.Wire.Encoding.{bytes_field, string_field, varint_field}
use halborn.Wire.Ticket.RoundTrip as Laws
use halborn.Keeper.Exec.{ok}
use halborn.Keeper.State.{State, Context}
use halborn.Keeper.Tickets.{completed, count_of, get_ticket_count}
use halborn.Keeper.Tickets.RoundTrip.{append_ticket_lem}
use halborn.Keeper.Tickets.Log.{Log}
use halborn.Keeper.CreateTicket.{create_ticket}
use halborn.Keeper.CreateTicket.Treasury.{create_ticket-paid}
use halborn.Keeper.Chain.{ticket_step, here, onwards}
use halborn.Keeper.Chain.Shows.{Shows, no_tickets}
use halborn.Keeper.Chain.Tickets.{Reach-Shows}
use halborn.Tests.Chain.Ledger.{Ledger}
use halborn.Tests.Home.{home, home_laws, holding, hal, alice, with_params, stored}

abbrev today : Context
today = record { block_time = pos 1000; chain_id = codes "hal-1"; now = pos 1000; visit = λ m. m }

abbrev help : MsgCreateTicket
help = record { creator = alice; author = alice; issue = codes "help" }

abbrev post : Ticket
post = record { author = alice; issue = codes "help"; id = 0; additional_info = [] }

abbrev rich : Ledger
rich = record { held = holding alice hal 10; total = λ d. 10 }

first_count : (b : Ledger) → get_ticket_count home (with_params b) ≡ (ok 0, with_params b)
unfolding get_ticket_count count_of
first_count b = refl

post-Fits : Laws.Fits (completed home today post 0)
post-Fits = record {
  author_fits = omega arith;
  issue_fits = omega arith;
  id_fits = omega arith;
  info_fits = omega arith;
}

post_short : length (Laws.encoding (completed home today post 0)) < 2 ^ 63
unfolding Laws.encoding varint_loop bytes_field string_field varint_field
post_short = omega arith

sold :
    (s' : State home) × (create_ticket home today help (with_params rich)
      ≡ (ok (record { id = 0 }), s'))
sold =
    let (b, moved, made) =
      create_ticket-paid home home_laws today (with_params rich) help alice default_params 3
        (record { creator = refl; stored = stored rich; size = refl; hal_valid = refl })
        (omega arith) refl in
    let (s', bz, appended, counted, found, read) =
      append_ticket_lem home home_laws today post (with_params b) 0 (first_count b) (omega arith)
        (λ e. omega (arith, e)) post-Fits post_short in
    (s', made s' 0 appended)

Reach-Shows_example : (new : Log) × (length new ≡ 1) × Shows home sold.0 (new ++ [])
Reach-Shows_example =
    Reach-Shows home home_laws (with_params rich) 1 sold.0 [] (omega arith)
      (onwards (with_params rich) 1 sold.0 0 sold.0
        (ticket_step today help (record { id = 0 }) sold.0 sold.1) (here sold.0))
      (record { counts = first_count rich; tickets = no_tickets })
