-- ===== src/Tests/RequestRuns.antt =====
-- Requests in the store, and one that was never made.
use halborn.Prelude.{
  ℕ, ◌<◌, ◌≡◌, ◌≢◌, ◌^◌, refl, ap, arith, bytes_eq_refl, Bytes, List, ◌∷◌, [], length, codes, some,
}
use halborn.Prelude.Int.{pos}
use mathlib.Core.List.{Memᴰ}
use halborn.Types.Records.{RedeemRequest, Ticket, zero_time}
use halborn.Types.Keys.{redeem_pool_name}
use halborn.Wire.Writer.{varint_loop}
use halborn.Wire.Encoding.{bytes_field, string_field, varint_field}
use halborn.Wire.Result as Wire
use halborn.Wire.Ticket.RoundTrip as TicketCodec
use halborn.Wire.RedeemRequest as Codec
use halborn.Wire.RedeemRequest.RoundTrip as Laws
use halborn.Wire.RedeemRequest.Confusion.{unmarshal-later_ticket}
use halborn.Sdk.Bank.{Moved}
use halborn.Sdk.Coins.{coin}
use halborn.Keeper.Exec.{ok}
use halborn.Keeper.State.{State, Context}
use halborn.Keeper.Tickets.{ticket_store_key}
use halborn.Keeper.Requests.{request_key, process, set_redeem_request, get_all_redeem_requests}
use halborn.Keeper.Requests.Collect.{
  get_all_redeem_requests-set_redeem_request, get_all_redeem_requests-ticket,
}
use halborn.Keeper.Requests.Payment.{process-paid, process-short}
use halborn.Tests.Chain.Ledger.{Ledger}
use halborn.Tests.Home.{home, home_laws, holding, stake, alice}

abbrev pool_of : ℕ → Ledger
pool_of n = record { held = holding redeem_pool_name stake n; total = λ d. n }

abbrev state_of : ℕ → State home
state_of n = record { kv = []; bank = pool_of n }

abbrev req : RedeemRequest
req = record { account = alice; collateral = coin stake 3; completiontime = pos 1000 }

abbrev due : Context
due = record { block_time = pos 1001; chain_id = codes "hal-1"; now = pos 1000; visit = λ m. m }

alice-not_pool : alice ≢ redeem_pool_name
alice-not_pool e = let no : 5 ≡ 19 = ap length e in omega (arith, no)

process-paid_example :
    (b : Ledger) × (process home due req (state_of 10)
      ≡ (ok tt, record { kv = home.kv.delete [] (request_key alice); bank = b }))
    × Moved home.bank (pool_of 10) b redeem_pool_name alice (coin stake 3 ∷ [])
process-paid_example =
    process-paid home home_laws {redeem_pool = redeem_pool_name} refl due req (state_of 10) alice
      stake 2 refl refl refl alice-not_pool refl refl (omega arith)

process-short_example : process home due req (state_of 2) ≡ (ok tt, state_of 2)
process-short_example =
    process-short home home_laws {redeem_pool = redeem_pool_name} refl due req (state_of 2) alice
      stake 2 refl refl refl refl refl (omega arith)

abbrev time_bytes : Bytes
time_bytes = 0 ∷ 1000 ∷ []

req-Fits : Laws.Fits home.gogo req time_bytes
req-Fits = record { account_fits = omega arith; coin_fits = omega arith; time_fits = omega arith }

req_short : length (Laws.encoding home.gogo req time_bytes) < 2 ^ 63
unfolding Laws.encoding varint_loop bytes_field string_field varint_field
req_short = omega arith

get_all_redeem_requests-set_redeem_request_example :
    (s' : State home) × (rs : List RedeemRequest) × (set_redeem_request home req (state_of 10)
      ≡ (ok tt, s'))
    × (get_all_redeem_requests home s' ≡ (ok rs, s'))
    × Memᴰ req rs
get_all_redeem_requests-set_redeem_request_example =
    get_all_redeem_requests-set_redeem_request home home_laws (state_of 10) req time_bytes refl
      req-Fits req_short

unmarshal-marshal_request_example :
    (bs : Bytes) × (Codec.marshal home.gogo req ≡ some bs)
    × (Codec.unmarshal home.gogo bs ≡ Wire.ok req)
unmarshal-marshal_request_example =
    Laws.unmarshal-marshal_request home.gogo req time_bytes refl home_laws.codec req-Fits req_short

-- A ticket whose issue is a marshalled coin.
abbrev forged : ℕ → Ticket
forged n = record {
  author = alice;
  issue = home.gogo.coin_marshal (coin stake 3);
  id = n;
  additional_info = codes "x";
}

forged_short : length (TicketCodec.encoding (forged 0)) < 2 ^ 63
unfolding TicketCodec.encoding varint_loop bytes_field string_field varint_field
forged_short = omega arith

later_short : length (TicketCodec.encoding (forged 1)) < 2 ^ 63
unfolding TicketCodec.encoding varint_loop bytes_field string_field varint_field
later_short = omega arith

abbrev with_ticket : State home
with_ticket = record {
  kv = (ticket_store_key 0, TicketCodec.encoding (forged 0)) ∷ [];
  bank = pool_of 10;
}

ticket_found :
    home.kv.get with_ticket.kv (ticket_store_key 0) ≡ some (TicketCodec.encoding (forged 0))
ticket_found = rw (bytes_eq_refl (ticket_store_key 0))

issue_given : (forged 0).issue ≢ []
issue_given e = let no : 7 ≡ 0 = ap length e in omega (arith, no)

get_all_redeem_requests-ticket_example :
    (rs : List RedeemRequest) × (get_all_redeem_requests home with_ticket ≡ (ok rs, with_ticket))
    × Memᴰ (record { account = alice; collateral = coin stake 3; completiontime = zero_time }) rs
get_all_redeem_requests-ticket_example =
    get_all_redeem_requests-ticket home home_laws with_ticket (ticket_store_key 0) (forged 0)
      (coin stake 3) refl issue_given refl forged_short ticket_found

unmarshal-later_ticket_example :
    (e : Wire.WireError) × (Codec.unmarshal home.gogo (TicketCodec.encoding (forged 1))
      ≡ Wire.err e)
unmarshal-later_ticket_example =
    unmarshal-later_ticket home.gogo (forged 1) (λ e. let no : 1 ≡ 0 = e in omega (arith, no))
      later_short
