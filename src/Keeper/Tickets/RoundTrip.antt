-- ===== src/Keeper/Tickets/RoundTrip.antt =====
-- The counter of the tickets, and the keys under which they are stored.
use halborn.Prelude.{
  ℕ, suc, ◌+◌, ◌%◌, ◌^◌, ◌<◌, ◌≡◌, ◌≢◌, ◌∙◌, refl, sym, ap, arith, Bytes, ◌++◌, some, bytes_eq_refl,
  bytes_ne→false, length, codes,
}
use mathlib.Core.Option.{some-injective}
use mathlib.Core.List.{append_cancel_left}
use halborn.Types.Records.{Ticket}
use halborn.Types.Keys.{ticket_key, ticket_key_counter}
use halborn.Wire.Result as Wire
use halborn.Wire.Ticket as Codec
use halborn.Wire.Ticket.RoundTrip as Laws
use halborn.Sdk.Env.{Sdk, IsSdk}
use halborn.Keeper.Exec.{ok}
use halborn.Keeper.State.{State, Context}
use halborn.Keeper.Tickets.Info.{stored_ticket, completed-stored}
use halborn.Keeper.Tickets.{
  put_uint64, uint64, ticket_store_key, completed, count_of, get_ticket_count, set_ticket_counter,
  append_ticket,
}

-- Reading eight bytes as a big-endian number gives back the uint64 that was put there.
pub uint64-put_uint64 : (v : ℕ) → v < 2 ^ 64 → uint64 (put_uint64 v) ≡ some v
unfolding uint64 put_uint64
uint64-put_uint64 v h = ap some (omega (arith, h))

pub put_uint64-injective : (v w : ℕ) → v < 2 ^ 64 → w < 2 ^ 64 → put_uint64 v ≡ put_uint64 w → v ≡ w
put_uint64-injective v w hv hw e =
    some-injective v w (sym (uint64-put_uint64 v hv) ∙ ap uint64 e ∙ uint64-put_uint64 w hw)

-- "_counter" as eight bytes
abbrev pub counter_id : ℕ
counter_id = 0x5f636f756e746572

put_uint64-counter_id : put_uint64 counter_id ≡ codes "_counter"
unfolding put_uint64
put_uint64-counter_id = refl

-- Tickets with different ids have different keys.
pub ticket_store_key-injective :
    (v w : ℕ) → v < 2 ^ 64 → w < 2 ^ 64 → ticket_store_key v ≡ ticket_store_key w → v ≡ w
ticket_store_key-injective v w hv hw e =
    put_uint64-injective v w hv hw (append_cancel_left ticket_key _ _ e)

-- A ticket whose key is that of the counter has the id whose eight bytes are "_counter".
pub ticket_store_key-counter :
    (v : ℕ) → v < 2 ^ 64 → ticket_store_key v ≡ ticket_key_counter → v ≡ counter_id
ticket_store_key-counter v h e =
    ticket_store_key-injective v counter_id h (omega arith)
      (e ∙ ap (λ k. ticket_key ++ k) (sym put_uint64-counter_id))

module _ (x : Sdk) (laws : IsSdk x) where
  pub counted :
      (s : State x) (count : ℕ)
      → count < 2 ^ 64
      → x.kv.get s.kv ticket_key_counter ≡ some (put_uint64 count)
      → get_ticket_count x s ≡ (ok count, s)
  unfolding get_ticket_count count_of
  counted s count h e = rw (e, uint64-put_uint64 count h)

  -- The store after a ticket has been appended.
  unfoldable pub after : State x → ℕ → Bytes → State x
  after s count bz = record {
    kv =
        x.kv.set (x.kv.set s.kv (ticket_store_key count) bz) ticket_key_counter
          (put_uint64 (suc count));
    bank = s.bank;
  }

  pub appended :
      (ctx : Context) (post : Ticket) (s : State x) (count : ℕ) (bz : Bytes)
      → get_ticket_count x s ≡ (ok count, s)
      → suc count < 2 ^ 64
      → Codec.marshal (completed x ctx post count) ≡ some bz
      → append_ticket x ctx post s ≡ (ok count, after s count bz)
  unfolding append_ticket set_ticket_counter after
  appended ctx post s count bz counts small written =
      let next : (count + 1) % 2 ^ 64 ≡ suc count = omega (arith, small) in
      rw (counts, written, next)

  counter_kept :
      (s : State x) (count : ℕ) (bz : Bytes) (id : ℕ)
      → id < 2 ^ 64
      → id ≢ counter_id
      → x.kv.get (after s count bz).kv (ticket_store_key id)
        ≡ x.kv.get (x.kv.set s.kv (ticket_store_key count) bz) (ticket_store_key id)
  unfolding after
  counter_kept s count bz id h other = rw (
    laws.kv_laws.get-set (x.kv.set s.kv (ticket_store_key count) bz) ticket_key_counter
        (ticket_store_key id) (put_uint64 (suc count)),
    bytes_ne→false ticket_key_counter (ticket_store_key id)
        (λ e. other (ticket_store_key-counter id h (sym e))),
  )

  -- Other tickets stay as they are.
  pub after-other :
      (s : State x) (count : ℕ) (bz : Bytes) (id : ℕ)
      → count < 2 ^ 64
      → id < 2 ^ 64
      → id ≢ count
      → id ≢ counter_id
      → x.kv.get (after s count bz).kv (ticket_store_key id) ≡ x.kv.get s.kv (ticket_store_key id)
  after-other s count bz id small h other other' =
      counter_kept s count bz id h other'
      ∙ rw (
        laws.kv_laws.get-set s.kv (ticket_store_key count) (ticket_store_key id) bz,
        bytes_ne→false (ticket_store_key count) (ticket_store_key id)
            (λ e. other (ticket_store_key-injective id count h small (sym e))),
      )

  pub after_self :
      (s : State x) (count : ℕ) (bz : Bytes)
      → count < 2 ^ 64
      → count ≢ counter_id
      → x.kv.get (after s count bz).kv (ticket_store_key count) ≡ some bz
  after_self s count bz small apart =
      counter_kept s count bz count small apart
      ∙ rw (
        laws.kv_laws.get-set s.kv (ticket_store_key count) (ticket_store_key count) bz,
        bytes_eq_refl (ticket_store_key count),
      )

  pub after_counted :
      (s : State x) (count : ℕ) (bz : Bytes)
      → suc count < 2 ^ 64
      → get_ticket_count x (after s count bz) ≡ (ok (suc count), after s count bz)
  unfolding after
  after_counted s count bz small = counted (after s count bz) (suc count) small (
      rw (
        laws.kv_laws.get-set (x.kv.set s.kv (ticket_store_key count) bz) ticket_key_counter
          ticket_key_counter (put_uint64 (suc count))))

  -- AppendTicket, for a ticket whose texts are short, and with a counter that is neither the
  -- largest uint64 nor the id whose key is the counter's: the counter is returned and is one
  -- higher afterwards, and what stands at the key of this id unmarshals to a ticket with the
  -- author and the issue that were given, with the counter's old value as its id, and with the
  -- status, the block's time and the chain's name added to its information on lines of their own,
  -- in the order in which the machine visits them.
  pub append_ticket_lem :
      (ctx : Context) (post : Ticket) (s : State x) (count : ℕ)
      → get_ticket_count x s ≡ (ok count, s)
      → suc count < 2 ^ 64
      → count ≢ counter_id
      → Laws.Fits (stored_ticket x ctx post count)
      → length (Laws.encoding (stored_ticket x ctx post count)) < 2 ^ 63
      → (s' : State x) × (bz : Bytes) × (append_ticket x ctx post s ≡ (ok count, s'))
        × (get_ticket_count x s' ≡ (ok (suc count), s'))
        × (x.kv.get s'.kv (ticket_store_key count) ≡ some bz)
        × (Codec.unmarshal bz ≡ Wire.ok (stored_ticket x ctx post count))
  unfolding after
  append_ticket_lem ctx post s count counts small apart fits short =
      let (bz, written, read) =
        Laws.unmarshal-marshal_ticket (stored_ticket x ctx post count) fits short in
      (
        after s count bz,
        bz,
        appended ctx post s count bz counts small
            (ap Codec.marshal (completed-stored x ctx post count) ∙ written),
        after_counted s count bz small,
        after_self s count bz (omega (arith, small)) apart,
        read,
      )

  -- AppendTicket, under the conditions of append_ticket_lem on the texts and the end of the
  -- counter: what stands at the key of any other id is the same as before, unless that key is the
  -- counter's.
  pub append_ticket-other :
      (ctx : Context) (post : Ticket) (s : State x) (count id : ℕ)
      → get_ticket_count x s ≡ (ok count, s)
      → suc count < 2 ^ 64
      → Laws.Fits (completed x ctx post count)
      → length (Laws.encoding (completed x ctx post count)) < 2 ^ 63
      → id < 2 ^ 64
      → id ≢ count
      → id ≢ counter_id
      → (s' : State x) × (append_ticket x ctx post s ≡ (ok count, s'))
        × (x.kv.get s'.kv (ticket_store_key id) ≡ x.kv.get s.kv (ticket_store_key id))
  append_ticket-other ctx post s count id counts small fits short h other other' =
      let (bz, written, read) =
        Laws.unmarshal-marshal_ticket (completed x ctx post count) fits short in
      (
        after s count bz,
        appended ctx post s count bz counts small written,
        after-other s count bz id (omega (arith, small)) h other other',
      )
