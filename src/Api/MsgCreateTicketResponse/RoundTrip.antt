-- ===== src/Api/MsgCreateTicketResponse/RoundTrip.antt =====
-- A MsgCreateTicketResponse is read back as it was written, its unknown fields included.
use halborn.Prelude.{
  ◌<◌, ◌^◌, ◌≡◌, refl, arith, Bytes, [], ◌++◌, length, length-append, List, false, Option, some,
  ne→==_false,
}
use halborn.Wire.Result.{ok}
use halborn.Wire.Encoding.{Writes, varint_field, >>-Writes, put_bytes-Writes}
use halborn.Wire.Reads.{Reads, Reads-append, Reads-varint_field}
use halborn.Api.Runtime.{Runtime, appended, size_message}
use halborn.Api.Runtime.Writes.{
  IsRuntime, number_size-length, put_number-Writes, marshal_message-Writes,
}
use halborn.Api.Runtime.Reads.{Unknown, raw, AllUnknown, Reads-raw, unmarshal_message-Reads}
use halborn.Api.MsgCreateTicketResponse.{MsgCreateTicketResponse, new_msg_create_ticket_response}
use halborn.Api.MsgCreateTicketResponse.Codec.{
  size_fields, fill, unmarshal_field, size, marshal, unmarshal,
}

-- The fields in the order of their numbers, and then the unknown ones.
unfoldable pub encoding : MsgCreateTicketResponse → Bytes
encoding x = varint_field 0x08 x.id ++ x.unknown_fields

-- Texts and numbers are of the widths of their fields, and the unknown fields are length-delimited.
pub record Fits (x : MsgCreateTicketResponse) : Type 0 where
  pub id_fits : x.id < 2 ^ 64
  pub unknowns : List Unknown
  pub unknowns_lem : x.unknown_fields ≡ raw unknowns
  pub all_unknown : AllUnknown 1 unknowns

module _ (rt : Runtime) (is_rt : IsRuntime rt) (x : MsgCreateTicketResponse) (h : Fits x) where
  size_fields-length : size_fields rt x ≡ length (encoding x)
  unfolding size_fields encoding
  size_fields-length =
      let s1 = varint_field 0x08 x.id in
      omega
        (arith, number_size-length rt is_rt 0x08 x.id h.id_fits, length-append s1 x.unknown_fields)

  fill-Writes : Writes (fill rt x) (encoding x)
  unfolding fill encoding
  fill-Writes =
      >>-Writes (put_bytes-Writes x.unknown_fields) (put_number-Writes rt is_rt 0x08 x.id h.id_fits)

  unknowns-Reads :
      Reads (unmarshal_field rt false) x.unknown_fields (record x { unknown_fields = [] }) x
  unfolding unmarshal_field
  unknowns-Reads = rw (← h.unknowns_lem) at (
      Reads-raw (unmarshal_field rt false) rt is_rt 1 (λ u. record x { unknown_fields = u })
        (λ num wire_type pre c old above.
          rw (unmarshal_field, ne→==_false num 1 (omega arith)) refl)
        h.unknowns h.all_unknown [])

  encoding-Reads : Reads (unmarshal_field rt false) (encoding x) new_msg_create_ticket_response x
  unfolding encoding unmarshal_field
  encoding-Reads =
      Reads-append _ (varint_field 0x08 x.id) _
        (Reads-varint_field _ 64 0x08 x.id (λ v. record new_msg_create_ticket_response { id = v })
          h.id_fits h.id_fits (omega arith) (omega arith) (omega arith) (λ pre c. refl))
        (unknowns-Reads)

  pub unmarshal-marshal_api_msg_create_ticket_response :
      length (encoding x) < 2 ^ 63
      → (buf : Option Bytes)
      → (size rt (some x) ≡ length (encoding x))
        × (marshal rt buf (some x) ≡ some (some (appended buf (encoding x))))
        × (unmarshal rt false (some new_msg_create_ticket_response) (encoding x) ≡ ok (some x))
  unfolding size marshal unmarshal size_message
  unmarshal-marshal_api_msg_create_ticket_response short buf = (
    size_fields-length,
    marshal_message-Writes _ _ buf x fill-Writes size_fields-length,
    unmarshal_message-Reads _ (encoding x) encoding-Reads short,
  )
