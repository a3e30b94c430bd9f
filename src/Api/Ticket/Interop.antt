-- ===== src/Api/Ticket/Interop.antt =====
-- Tickets that the keeper stores, read and written by the API.
use halborn.Prelude.{◌<◌, ◌^◌, ◌≡◌, refl, [], append-nil, length, none, some, false}
use halborn.Types.Records as Types
use halborn.Wire.Result.{ok}
use halborn.Wire.Ticket as Wire
use halborn.Wire.Ticket.RoundTrip as Stored
use halborn.Api.Runtime.{Runtime}
use halborn.Api.Runtime.Writes.{IsRuntime}
use halborn.Api.Runtime.Reads.{no_unknown}
use halborn.Api.Ticket.{Ticket, new_ticket}
use halborn.Api.Ticket.Codec.{marshal, unmarshal}
use halborn.Api.Ticket.RoundTrip.{Fits, encoding, unmarshal-marshal_api_ticket}

-- The same ticket, as a struct of the API.
abbrev pub of_stored : Types.Ticket → Ticket
of_stored t = record {
  author = t.author;
  issue = t.issue;
  id = t.id;
  additional_info = t.additional_info;
  unknown_fields = [];
}

of_stored-Fits : (t : Types.Ticket) → Stored.Fits t → Fits (of_stored t)
of_stored-Fits t h = record {
  author_fits = h.author_fits;
  issue_fits = h.issue_fits;
  id_fits = h.id_fits;
  additional_info_fits = h.info_fits;
  unknowns = [];
  unknowns_lem = refl;
  all_unknown = no_unknown;
}

of_stored-encoding : (t : Types.Ticket) → encoding (of_stored t) ≡ Stored.encoding t
unfolding encoding Stored.encoding
of_stored-encoding t = rw append-nil refl

-- For a ticket with short fields: the API's marshal gives the bytes that Ticket.Marshal gives to
-- the store, and both unmarshal functions read them back, where the bytes are fewer than 2 ^ 63
-- and the runtime's functions do what they say.
pub marshal_ticket-interop :
    (rt : Runtime)
    → IsRuntime rt
    → (t : Types.Ticket) → Stored.Fits t
    → length (Stored.encoding t) < 2 ^ 63
    → (marshal rt none (some (of_stored t)) ≡ some (Wire.marshal t))
      × (unmarshal rt false (some new_ticket) (Stored.encoding t) ≡ ok (some (of_stored t)))
      × (Wire.unmarshal (Stored.encoding t) ≡ ok t)
marshal_ticket-interop rt is_rt t h short =
    let same = of_stored-encoding t in
    let (_, written, read) = rw same at (
      unmarshal-marshal_api_ticket rt is_rt (of_stored t) (of_stored-Fits t h) (rw same short)
        none) in
    (rw (Stored.marshal-encoding t h) written, read, Stored.unmarshal-encoding t h short)
