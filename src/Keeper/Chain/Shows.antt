-- ===== src/Keeper/Chain/Shows.antt =====
-- The tickets of a state as a log, and states that agree on the tickets.
use halborn.Prelude.{ℕ, ◌≡◌, ◌∙◌, Bytes, [], ◌∷◌, length, Option, none, some, codes}
use halborn.Types.Records.{Ticket}
use halborn.Wire.Ticket as Codec
use halborn.Sdk.Env.{Sdk}
use halborn.Keeper.Exec.{ok, or_panic}
use halborn.Keeper.State.{State}
use halborn.Keeper.Tickets.{ticket_store_key, count_of, get_ticket_count}
use halborn.Keeper.Tickets.Log.{Log}
use halborn.Keeper.Chain.Frame.{Frame}

module _ (x : Sdk) where
  -- What stands at the key of a ticket is what Marshal makes of it.
  pub record IsStored (s : State x) (id : ℕ) (t : Ticket) : Type 0 where
    pub value : Bytes
    pub found : x.kv.get s.kv (ticket_store_key id) ≡ some value
    pub written : Codec.marshal t ≡ some value

  pub data AllStored (s : State x) : Log → Type 0 where
    no_tickets : AllStored s []
    one_more :
        (t : Ticket) (log : Log)
        → IsStored s (length log) t
        → AllStored s log
        → AllStored s (t ∷ log)

  -- The counter is the length of the log, and each of its tickets is stored.
  pub record Shows (s : State x) (log : Log) : Type 0 where
    pub counts : get_ticket_count x s ≡ (ok (length log), s)
    pub tickets : AllStored s log

  or_panic-moves :
      (o : Option ℕ) (n : ℕ) (s s' : State x)
      → or_panic o s ≡ (ok n, s)
      → or_panic o s' ≡ (ok n, s')
  or_panic-moves none n s s' h = cc
  or_panic-moves (some v) n s s' h = cc

  count_of-moves :
      (o : Option Bytes) (n : ℕ) (s s' : State x)
      → count_of x o s ≡ (ok n, s)
      → count_of x o s' ≡ (ok n, s')
  unfolding count_of
  count_of-moves none n s s' h = cc
  count_of-moves (some bz) n s s' h = or_panic-moves _ n s s' h

  count-moves :
      (s s' : State x) (n : ℕ)
      → Frame x s.kv s'.kv
      → get_ticket_count x s ≡ (ok n, s)
      → get_ticket_count x s' ≡ (ok n, s')
  unfolding get_ticket_count
  count-moves s s' n f h = rw (f.same (codes "_counter")) (count_of-moves _ n s s' h)

  AllStored-moves :
      (s s' : State x) (log : Log) → Frame x s.kv s'.kv → AllStored s log → AllStored s' log
  AllStored-moves s s' _ f no_tickets = no_tickets
  AllStored-moves s s' _ f (one_more t log h rest) =
      one_more t log (record { value = h.value; found = f.same _ ∙ h.found; written = h.written })
        (AllStored-moves s s' log f rest)

  pub Shows-moves : (s s' : State x) (log : Log) → Frame x s.kv s'.kv → Shows s log → Shows s' log
  Shows-moves s s' log f h = record {
    counts = count-moves s s' (length log) f h.counts;
    tickets = AllStored-moves s s' log f h.tickets;
  }
