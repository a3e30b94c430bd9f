-- ===== src/Keeper/Tickets/Log.antt =====
-- The tickets of the store as a log: AppendTicket adds one, and loses none.
use halborn.Prelude.{
  ℕ, ◌^◌, ◌<◌, ◌≤◌, ◌≡◌, ◌∙◌, refl, ap, arith, Bytes, List, [], ◌∷◌, some, length,
}
use halborn.Types.Records.{Ticket}
use halborn.Wire.Result as Wire
use halborn.Wire.Ticket as Codec
use halborn.Wire.Ticket.RoundTrip as Laws
use halborn.Sdk.Env.{Sdk, IsSdk}
use halborn.Keeper.Exec.{ok, Exec, pure, ◌>>=◌}
use halborn.Keeper.State.{State, Context}
use halborn.Keeper.Tickets.{ticket_store_key, get_ticket_count, append_ticket}
use halborn.Keeper.Tickets.Info.{stored_ticket, completed-stored}
use halborn.Keeper.Tickets.RoundTrip.{
  counter_id, after, appended, after-other, after_self, after_counted,
}

-- The log: the latest ticket first, so that the id of a ticket is the length of what follows it.
abbrev pub Log : Type 0
Log = List Ticket

module _ (x : Sdk) where
  -- What a call adds to the log.
  abbrev pub append : Context → Ticket → Log → Log
  append ctx post log = stored_ticket x ctx post (length log) ∷ log

  abbrev pub append_all : List (Context × Ticket) → Log → Log
  append_all [] log = log
  append_all ((ctx, post) ∷ calls) log = append_all calls (append ctx post log)

  -- The calls of AppendTicket, one after the other.
  unfoldable pub append_tickets : List (Context × Ticket) → Exec (State x) (Unit {0})
  unfolding append_ticket
  append_tickets [] = pure tt
  append_tickets ((ctx, post) ∷ calls) = do id ← append_ticket x ctx post; append_tickets calls

  -- What stands at the key of a ticket unmarshals to it.
  pub record HasTicket (s : State x) (id : ℕ) (t : Ticket) : Type 0 where
    pub value : Bytes
    pub found : x.kv.get s.kv (ticket_store_key id) ≡ some value
    pub read : Codec.unmarshal value ≡ Wire.ok t

  pub data HasTickets (s : State x) : Log → Type 0 where
    empty_log : HasTickets s []
    longer_log :
        (t : Ticket) (log : Log)
        → HasTicket s (length log) t
        → HasTickets s log
        → HasTickets s (t ∷ log)

  pub record Represents (s : State x) (log : Log) : Type 0 where
    pub counts : get_ticket_count x s ≡ (ok (length log), s)
    pub tickets : HasTickets s log

  -- The tickets that the calls make can be marshalled, and there is an id for each.
  pub data AllFit : Log → List (Context × Ticket) → Type 0 where
    no_calls : (log : Log) → AllFit log []
    more_calls :
        (log : Log) (ctx : Context) (post : Ticket) (calls : List (Context × Ticket))
        → length log < counter_id
        → Laws.Fits (stored_ticket x ctx post (length log))
        → length (Laws.encoding (stored_ticket x ctx post (length log))) < 2 ^ 63
        → AllFit (append ctx post log) calls
        → AllFit log ((ctx, post) ∷ calls)

module _ (x : Sdk) (laws : IsSdk x) where
  HasTickets-after :
      (s : State x) (log : Log) (count : ℕ) (bz : Bytes)
      → length log ≤ count
      → count < counter_id
      → HasTickets x s log
      → HasTickets x (after x laws s count bz) log
  HasTickets-after s _ count bz below small empty_log = empty_log
  HasTickets-after s _ count bz below small (longer_log t log h rest) =
      longer_log t log
        (record {
          value = h.value;
          found =
              after-other x laws s count bz (length log) (omega arith) (omega arith) (omega arith)
                (omega arith)
              ∙ h.found;
          read = h.read;
        })
        (HasTickets-after s log count bz (omega arith) small rest)

  Represents-append :
      (ctx : Context) (post : Ticket) (s : State x) (log : Log)
      → length log < counter_id
      → Laws.Fits (stored_ticket x ctx post (length log))
      → length (Laws.encoding (stored_ticket x ctx post (length log))) < 2 ^ 63
      → Represents x s log
      → (s' : State x) × (append_ticket x ctx post s ≡ (ok (length log), s'))
        × Represents x s' (append x ctx post log)
  Represents-append ctx post s log small fits short h =
      let count = length log in
      let (bz, written, read) =
        Laws.unmarshal-marshal_ticket (stored_ticket x ctx post count) fits short in
      (
        after x laws s count bz,
        appended x laws ctx post s count bz h.counts (omega arith)
            (ap Codec.marshal (completed-stored x ctx post count) ∙ written),
        record {
          counts = after_counted x laws s count bz (omega arith);
          tickets =
              longer_log _ log
                (record {
                  value = bz;
                  found = after_self x laws s count bz (omega arith) (omega arith);
                  read = read;
                })
                (HasTickets-after s log count bz (omega arith) small h.tickets);
        },
      )

  -- From a state that represents a log of tickets, any calls of AppendTicket for which there are
  -- ids below that of the counter's key, and whose tickets have short fields, succeed one after
  -- the other, and the state then represents the log with a ticket added for each call, which has
  -- the author and the issue that were given, the length of the log as its id and the metadata on
  -- lines of their own: the counter is the length of the log, and every ticket of it, old or new,
  -- is read back from its key.
  pub append_tickets-refines :
      (calls : List (Context × Ticket)) (s : State x) (log : Log)
      → AllFit x log calls
      → Represents x s log
      → (s' : State x) × (append_tickets x calls s ≡ (ok tt, s'))
        × Represents x s' (append_all x calls log)
  unfolding append_tickets
  append_tickets-refines _ s log (no_calls _) h = (s, refl, h)
  append_tickets-refines _ s log (more_calls _ ctx post calls small fits short more) h =
      let (s1, first, h1) = Represents-append ctx post s log small fits short h in
      let (s2, others, h2) = append_tickets-refines calls s1 (append x ctx post log) more h1 in
      (s2, rw first others, h2)
