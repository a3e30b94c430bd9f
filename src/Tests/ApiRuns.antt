-- ===== src/Tests/ApiRuns.antt =====
-- Messages of the API as bytes, which go to the keeper and come from it.
use halborn.Prelude.{
  ℕ, ◌<◌, ◌≡◌, ◌≢◌, ◌^◌, refl, arith, Bytes, [], ◌∷◌, length, codes, none, some, false,
}
use halborn.Types.Params.{default_params}
use halborn.Types.Records as Types
use halborn.Wire.Result.{Result, ok, err, stuck, nested}
use halborn.Wire.Writer.{varint_loop}
use halborn.Wire.Encoding.{bytes_field, string_field, varint_field}
use halborn.Wire.Ticket as StoredTicket
use halborn.Wire.RedeemRequest as StoredRequest
use halborn.Wire.Params as StoredParams
use halborn.Wire.TokenMeta as StoredMeta
use halborn.Wire.Ticket.RoundTrip as StoredRoundTrip
use halborn.Wire.Params.RoundTrip as ParamsRoundTrip
use halborn.Wire.Ends.Messages.{unmarshal-ends}
use halborn.Types.Params as TypesParams
use halborn.Api.Runtime.{Codec}
use halborn.Api.Runtime.Writes.{Encodes}
use halborn.Api.Runtime.Gogo.{gogo_runtime, gogo_runtime-IsRuntime}
use halborn.Api.Runtime.Reads.{Unknown, no_unknown, more_unknown}
use halborn.Api.Ticket as Ticket
use halborn.Api.Ticket.Codec as TicketCodec
use halborn.Api.Ticket.RoundTrip as TicketRoundTrip
use halborn.Api.Ticket.RoundTrip.{unmarshal-marshal_api_ticket}
use halborn.Api.Ticket.Interop.{of_stored, marshal_ticket-interop}
use halborn.Api.TokenMeta.Codec as MetaCodec
use halborn.Api.Params as Params
use halborn.Api.Params.Codec as ParamsCodec
use halborn.Api.Params.Interop as ParamsInterop
use halborn.Api.Params.Interop.{marshal_params-interop}
use halborn.Tests.Home.{home, dur, default-Fits, default_short}

-- A ticket with a field that the API does not know.
abbrev extra : Unknown
extra = record { tag = 0x2a; payload = 7 ∷ 8 ∷ [] }

abbrev ticket : Ticket.Ticket
ticket = record {
  author = codes "alice";
  issue = codes "help";
  id = 300;
  additional_info = [];
  unknown_fields = 0x2a ∷ 2 ∷ 7 ∷ 8 ∷ [];
}

ticket-Fits : TicketRoundTrip.Fits ticket
unfolding varint_loop bytes_field
ticket-Fits = record {
  author_fits = omega arith;
  issue_fits = omega arith;
  id_fits = omega arith;
  additional_info_fits = omega arith;
  unknowns = extra ∷ [];
  unknowns_lem = refl;
  all_unknown =
      more_unknown extra []
        (record { one_byte = omega arith; delimited = refl; foreign = omega arith }) no_unknown;
}

ticket_short : length (TicketRoundTrip.encoding ticket) < 2 ^ 63
unfolding TicketRoundTrip.encoding varint_loop bytes_field string_field varint_field
ticket_short = omega arith

unmarshal-marshal_api_ticket_example :
    (TicketCodec.size gogo_runtime (some ticket) ≡ length (TicketRoundTrip.encoding ticket))
    × (TicketCodec.marshal gogo_runtime (some (1 ∷ 2 ∷ [])) (some ticket)
        ≡ some (some (1 ∷ 2 ∷ TicketRoundTrip.encoding ticket)))
    × (TicketCodec.unmarshal gogo_runtime false
          (some Ticket.new_ticket)
          (TicketRoundTrip.encoding ticket)
        ≡ ok (some ticket))
unmarshal-marshal_api_ticket_example =
    unmarshal-marshal_api_ticket gogo_runtime gogo_runtime-IsRuntime ticket ticket-Fits ticket_short
      (some (1 ∷ 2 ∷ []))

abbrev stored : Types.Ticket
stored = record {
  author = codes "alice";
  issue = codes "help";
  id = 1;
  additional_info = codes "x";
}

stored-Fits : StoredRoundTrip.Fits stored
stored-Fits = record {
  author_fits = omega arith;
  issue_fits = omega arith;
  id_fits = omega arith;
  info_fits = omega arith;
}

stored_short : length (StoredRoundTrip.encoding stored) < 2 ^ 63
unfolding StoredRoundTrip.encoding varint_loop bytes_field string_field varint_field
stored_short = omega arith

marshal_ticket-interop_example :
    (TicketCodec.marshal gogo_runtime none (some (of_stored stored))
      ≡ some (StoredTicket.marshal stored))
    × (TicketCodec.unmarshal gogo_runtime false
          (some Ticket.new_ticket)
          (StoredRoundTrip.encoding stored)
        ≡ ok (some (of_stored stored)))
    × (StoredTicket.unmarshal (StoredRoundTrip.encoding stored) ≡ ok stored)
marshal_ticket-interop_example =
    marshal_ticket-interop gogo_runtime gogo_runtime-IsRuntime stored stored-Fits stored_short

-- Durations as the chain of the tests marshals them.
read_duration : ℕ → Bytes → Result ℕ
read_duration d (z ∷ n ∷ []) = ok n
read_duration d _ = err nested

abbrev duration_codec : Codec ℕ
duration_codec = record {
  new_message = 0;
  size = λ d. 2;
  marshal = λ d. some (0 ∷ d ∷ []);
  unmarshal = read_duration;
}

two_weeks : Encodes duration_codec 1209600000000000 dur
unfolding read_duration
two_weeks = record { sized = refl; marshalled = refl; read = refl; short = omega arith }

marshal_params-interop_example :
    (ParamsCodec.marshal gogo_runtime duration_codec
        (MetaCodec.codec gogo_runtime false)
        none
        (some (ParamsInterop.of_stored default_params 1209600000000000))
      ≡ some (StoredParams.marshal home.gogo default_params))
    × (ParamsCodec.unmarshal gogo_runtime duration_codec
          (MetaCodec.codec gogo_runtime false)
          false
          (some Params.new_params)
          (ParamsRoundTrip.encoding default_params dur)
        ≡ ok (some (ParamsInterop.of_stored default_params 1209600000000000)))
marshal_params-interop_example =
    marshal_params-interop gogo_runtime gogo_runtime-IsRuntime duration_codec 1209600000000000
      default_params dur home.gogo refl two_weeks default-Fits default_short

-- Bytes that are no message: an open group, a length that is too long.
unmarshal-ends_example :
    (StoredTicket.unmarshal (0x0b ∷ 0x12 ∷ 0xff ∷ []) ≢ stuck)
    × (StoredRequest.unmarshal home.gogo (0x0b ∷ 0x12 ∷ 0xff ∷ []) ≢ stuck)
    × (StoredParams.unmarshal home.gogo (0x0b ∷ 0x12 ∷ 0xff ∷ []) ≢ stuck)
    × (StoredMeta.unmarshal TypesParams.no_token_meta (0x0b ∷ 0x12 ∷ 0xff ∷ []) ≢ stuck)
unmarshal-ends_example =
    unmarshal-ends home.gogo (0x0b ∷ 0x12 ∷ 0xff ∷ []) TypesParams.no_token_meta
