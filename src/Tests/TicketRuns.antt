-- ===== src/Tests/TicketRuns.antt =====
-- Tickets in the store, and what they cost.
use halborn.Prelude.{
  ◌<◌, ◌≡◌, ◌≢◌, ◌^◌, ℕ, inl, inr, refl, ap, arith, Bytes, List, [], ◌∷◌, length, codes, some,
  bytes_eq, not,
}
use halborn.Prelude.Int.{pos}
use halborn.Types.Records.{Ticket}
use halborn.Types.Params.{default_params}
use halborn.Types.Keys.{treasury_key, ticket_key_counter}
use halborn.Types.Messages.{MsgCreateTicket}
use halborn.Wire.Writer.{varint_loop}
use halborn.Wire.Encoding.{bytes_field, string_field, varint_field}
use halborn.Wire.Result as Wire
use halborn.Wire.Ticket as Codec
use halborn.Wire.Ticket.RoundTrip as Laws
use halborn.Sdk.Env.{Sdk, IsSdk}
use halborn.Keeper.Exec.{ok, err, panic, insufficient_funds}
use halborn.Keeper.State.{State, Context}
use halborn.Keeper.Params.{get_params}
use halborn.Keeper.Params.RoundTrip.{get_params-encoding}
use halborn.Keeper.Tickets.{
  put_uint64, ticket_store_key, completed, get_ticket_count, append_ticket, metadata,
}
use halborn.Keeper.Tickets.RoundTrip.{
  counter_id, ticket_store_key-counter, append_ticket_lem, append_ticket-other,
}
use halborn.Keeper.Tickets.Log.{
  append, append_all, append_tickets, Represents, empty_log, no_calls, more_calls,
  append_tickets-refines,
}
use halborn.Keeper.Tickets.Info.{stored_ticket}
use halborn.Keeper.Tickets.Order.{reversed_three, completed-order}
use halborn.Keeper.CreateTicket.{create_ticket}
use halborn.Keeper.CreateTicket.Treasury.{create_ticket-poor, create_ticket-no_treasury}
use halborn.Tests.Chain.{chain, chain_laws}
use halborn.Tests.Chain.Ledger.{Ledger}
use halborn.Tests.Home.{
  home, home_laws, holding, hal, alice, with_params, stored, dur, default-Fits, default_short,
}

abbrev nobody : Ledger
nobody = record { held = λ z d. 0; total = λ d. 0 }

abbrev empty : State home
empty = record { kv = []; bank = nobody }

abbrev today : Context
today = record { block_time = pos 1000; chain_id = codes "hal-1"; now = pos 1000; visit = λ m. m }

abbrev post : Ticket
post = record { author = alice; issue = codes "help"; id = 0; additional_info = [] }

no_count : get_ticket_count home empty ≡ (ok 0, empty)
unfolding get_ticket_count
no_count = refl

post-Fits : Laws.Fits (completed home today post 0)
post-Fits = record {
  author_fits = omega arith;
  issue_fits = omega arith;
  id_fits = omega arith;
  info_fits = omega arith;
}

post_short : length (Laws.encoding (completed home today post 0)) < 2 ^ 63
unfolding Laws.encoding varint_loop bytes_field string_field varint_field
post_short = omega arith

not_counter : 0 ≢ counter_id
not_counter e = omega (arith, e)

append_ticket_lem_example :
    (s' : State home) × (bz : Bytes) × (append_ticket home today post empty ≡ (ok 0, s'))
    × (get_ticket_count home s' ≡ (ok 1, s'))
    × (home.kv.get s'.kv (ticket_store_key 0) ≡ some bz)
    × (Codec.unmarshal bz ≡ Wire.ok (stored_ticket home today post 0))
append_ticket_lem_example =
    append_ticket_lem home home_laws today post empty 0 no_count (omega arith) not_counter post-Fits
      post_short

append_ticket-other_example :
    (s' : State home) × (append_ticket home today post empty ≡ (ok 0, s'))
    × (home.kv.get s'.kv (ticket_store_key 7) ≡ home.kv.get empty.kv (ticket_store_key 7))
append_ticket-other_example =
    append_ticket-other home home_laws today post empty 0 7 no_count (omega arith) post-Fits
      post_short (omega arith) (omega arith) (omega arith)

unmarshal-marshal_ticket_example :
    (bs : Bytes) × (Codec.marshal (completed home today post 0) ≡ some bs)
    × (Codec.unmarshal bs ≡ Wire.ok (completed home today post 0))
unmarshal-marshal_ticket_example =
    Laws.unmarshal-marshal_ticket (completed home today post 0) post-Fits post_short

-- Two tickets of the same message, in one block.
later-Fits : Laws.Fits (completed home today post 1)
later-Fits = record {
  author_fits = omega arith;
  issue_fits = omega arith;
  id_fits = omega arith;
  info_fits = omega arith;
}

later_short : length (Laws.encoding (completed home today post 1)) < 2 ^ 63
unfolding Laws.encoding varint_loop bytes_field string_field varint_field
later_short = omega arith

abbrev calls : List (Context × Ticket)
calls = (today, post) ∷ (today, post) ∷ []

append_tickets-refines_example :
    (s' : State home) × (append_tickets home calls empty ≡ (ok tt, s'))
    × Represents home s' (append_all home calls [])
append_tickets-refines_example =
    append_tickets-refines home home_laws calls empty []
      (more_calls [] today post ((today, post) ∷ []) (omega arith) post-Fits post_short (
        more_calls (append home today post []) today post [] (omega arith) later-Fits later_short
          (no_calls _)))
      (record { counts = no_count; tickets = empty_log })

counter_key : ticket_store_key counter_id ≡ ticket_key_counter
unfolding put_uint64
counter_key = refl

ticket_store_key-counter_example : counter_id ≡ counter_id
ticket_store_key-counter_example = ticket_store_key-counter counter_id (omega arith) counter_key

orders_differ : metadata home today ≢ reversed_three (metadata home today)
orders_differ e = let heads : 6 ≡ 8 = ap first_length e in omega (arith, heads)
  where
    first_length : List (Bytes × Bytes) → ℕ
    first_length [] = 0
    first_length (e ∷ es) = length e.0

completed-order_example :
    completed home (record today { visit = λ m. m }) post 0
    ≢ completed home (record today { visit = reversed_three }) post 0
completed-order_example =
    completed-order home today (λ m. m) reversed_three post 0
      (inl refl, (inr (inl refl), (inr (inr (inl refl)), tt)))
      (inr (inr (inl refl)), (inr (inl refl), (inl refl, tt))) orders_differ

-- A chain on which every name but the treasury's is a module account.
abbrev untreasured : Sdk
untreasured = chain (λ m. not (bytes_eq m treasury_key))

untreasured_laws : IsSdk untreasured
untreasured_laws = chain_laws (λ m. not (bytes_eq m treasury_key))

abbrev help : MsgCreateTicket
help = record { creator = alice; author = alice; issue = codes "help" }

abbrev rich : Ledger
rich = record { held = holding alice hal 10; total = λ d. 10 }

create_ticket-poor_example :
    create_ticket home today help (with_params nobody)
    ≡ (err insufficient_funds, with_params nobody)
create_ticket-poor_example =
    create_ticket-poor home home_laws today (with_params nobody) help alice default_params 3
      (record { creator = refl; stored = stored nobody; size = refl; hal_valid = refl })
      (omega arith)

abbrev there : State untreasured
there = record { kv = (with_params rich).kv; bank = rich }

stored_there : get_params untreasured there ≡ (ok default_params, there)
stored_there =
    get_params-encoding untreasured untreasured_laws default_params dur there refl default-Fits
      default_short refl

create_ticket-no_treasury_example : create_ticket untreasured today help there ≡ (panic, there)
create_ticket-no_treasury_example =
    create_ticket-no_treasury untreasured untreasured_laws today there help alice default_params 3
      (record { creator = refl; stored = stored_there; size = refl; hal_valid = refl })
      (omega arith) refl
