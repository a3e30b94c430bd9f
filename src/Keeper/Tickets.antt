-- ===== src/Keeper/Tickets.antt =====
-- The tickets of the store and their counter: x/hal/keeper/ticket.go.
pub mod Info
pub mod Order
pub mod RoundTrip
pub mod Log
use halborn.Prelude.{
  ℕ, ◌+◌, ◌*◌, ◌/◌, ◌%◌, ◌^◌, Bytes, codes, List, [], ◌∷◌, ◌++◌, Option, none, some,
}
use halborn.Types.Records.{Ticket}
use halborn.Types.Keys.{ticket_key, ticket_key_counter}
use halborn.Wire.Ticket as Codec
use halborn.Sdk.Env.{Sdk}
use halborn.Keeper.Exec.{Exec, pure, ◌>>=◌, ◌>>◌, gets, or_panic, modify}
use halborn.Keeper.State.{State, Context}

-- `binary.BigEndian.PutUint64` into eight bytes
unfoldable pub put_uint64 : ℕ → Bytes
put_uint64 v =
    v / 2 ^ 56 % 256
    ∷ v / 2 ^ 48 % 256
    ∷ v / 2 ^ 40 % 256
    ∷ v / 2 ^ 32 % 256
    ∷ v / 2 ^ 24 % 256
    ∷ v / 2 ^ 16 % 256
    ∷ v / 2 ^ 8 % 256
    ∷ v % 256
    ∷ []

-- `binary.BigEndian.Uint64`, which panics on fewer than eight bytes
unfoldable pub uint64 : Bytes → Option ℕ
uint64 (a ∷ b ∷ c ∷ d ∷ e ∷ f ∷ g ∷ h ∷ rest) =
    some
      (a * 2 ^ 56 + b * 2 ^ 48 + c * 2 ^ 40 + d * 2 ^ 32 + e * 2 ^ 24 + f * 2 ^ 16 + g * 2 ^ 8 + h)
uint64 _ = none

-- Where a ticket is stored: its id behind the prefix of the tickets.
abbrev pub ticket_store_key : ℕ → Bytes
ticket_store_key id = ticket_key ++ put_uint64 id

-- The loop over `metadata`, in the order of `visit`.
abbrev pub append_metadata : Bytes → List (Bytes × Bytes) → Bytes
append_metadata info [] = info
append_metadata info ((key, value) ∷ entries) =
    append_metadata (info ++ codes "\n" ++ key ++ codes ": " ++ value) entries

module _ (x : Sdk) where
  abbrev pub metadata : Context → List (Bytes × Bytes)
  metadata ctx =
      (codes "status", codes "Creater")
      ∷ (codes "timestamp", x.time_string ctx.block_time)
      ∷ (codes "chain ID", ctx.chain_id)
      ∷ []

  unfoldable pub count_of : Option Bytes → Exec (State x) ℕ
  count_of none = pure 0
  count_of (some bz) = or_panic (uint64 bz)

  unfoldable pub get_ticket_count : Exec (State x) ℕ
  unfolding count_of uint64
  get_ticket_count = do bz ← gets (λ s. x.kv.get s.kv ticket_key_counter); count_of bz

  unfoldable pub set_ticket_counter : ℕ → Exec (State x) (Unit {0})
  set_ticket_counter count =
      modify (λ s. record s { kv = x.kv.set s.kv ticket_key_counter (put_uint64 count) })

  -- `post` with its id and its metadata
  abbrev pub completed : Context → Ticket → ℕ → Ticket
  completed ctx post count = record post {
    id = count;
    additional_info = append_metadata post.additional_info (ctx.visit (metadata ctx));
  }

  unfoldable pub append_ticket : Context → Ticket → Exec (State x) ℕ
  unfolding get_ticket_count set_ticket_counter
  append_ticket ctx post = do
    count ← get_ticket_count
    value ← or_panic (Codec.marshal (completed ctx post count))
    modify (λ s. record s { kv = x.kv.set s.kv (ticket_store_key count) value })
    set_ticket_counter ((count + 1) % 2 ^ 64)
    pure count
