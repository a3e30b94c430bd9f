-- ===== src/Api/Ticket/RoundTrip.antt =====
-- A Ticket is read back as it was written, its unknown fields included.
use halborn.Prelude.{
  ◌<◌, ◌^◌, ◌≡◌, refl, arith, Bytes, [], ◌++◌, length, length-append, List, false, Option, some,
  ne→==_false,
}
use halborn.Wire.Result.{ok}
use halborn.Wire.Encoding.{Writes, string_field, varint_field, >>-Writes, put_bytes-Writes}
use halborn.Wire.Reads.{Reads, Reads-append, Reads-string_field, Reads-varint_field}
use halborn.Api.Runtime.{Runtime, appended, size_message}
use halborn.Api.Runtime.Writes.{
  IsRuntime, string_size-length, number_size-length, put_string-Writes, put_number-Writes,
  marshal_message-Writes,
}
use halborn.Api.Runtime.Reads.{Unknown, raw, AllUnknown, Reads-raw, unmarshal_message-Reads}
use halborn.Api.Ticket.{Ticket, new_ticket}
use halborn.Api.Ticket.Codec.{size_fields, fill, unmarshal_field, size, marshal, unmarshal}

-- The fields in the order of their numbers, and then the unknown ones.
unfoldable pub encoding : Ticket → Bytes
encoding x =
    string_field 0x0a x.author
    ++ (string_field 0x12 x.issue
        ++ (varint_field 0x18 x.id ++ (string_field 0x22 x.additional_info ++ x.unknown_fields)))

-- Texts and numbers are of the widths of their fields, and the unknown fields are length-delimited.
pub record Fits (x : Ticket) : Type 0 where
  pub author_fits : length x.author < 2 ^ 64
  pub issue_fits : length x.issue < 2 ^ 64
  pub id_fits : x.id < 2 ^ 64
  pub additional_info_fits : length x.additional_info < 2 ^ 64
  pub unknowns : List Unknown
  pub unknowns_lem : x.unknown_fields ≡ raw unknowns
  pub all_unknown : AllUnknown 4 unknowns

module _ (rt : Runtime) (is_rt : IsRuntime rt) (x : Ticket) (h : Fits x) where
  size_fields-length : size_fields rt x ≡ length (encoding x)
  unfolding size_fields encoding
  size_fields-length =
      let s1 = string_field 0x0a x.author in
      let s2 = string_field 0x12 x.issue in
      let s3 = varint_field 0x18 x.id in
      let s4 = string_field 0x22 x.additional_info in
      omega (
        arith,
        string_size-length rt is_rt 0x0a x.author h.author_fits,
        string_size-length rt is_rt 0x12 x.issue h.issue_fits,
        number_size-length rt is_rt 0x18 x.id h.id_fits,
        string_size-length rt is_rt 0x22 x.additional_info h.additional_info_fits,
        length-append s1 (s2 ++ (s3 ++ (s4 ++ x.unknown_fields))),
        length-append s2 (s3 ++ (s4 ++ x.unknown_fields)),
        length-append s3 (s4 ++ x.unknown_fields),
        length-append s4 x.unknown_fields,
      )

  fill-Writes : Writes (fill rt x) (encoding x)
  unfolding fill encoding
  fill-Writes =
      >>-Writes
        (>>-Writes
          (>>-Writes
            (>>-Writes (put_bytes-Writes x.unknown_fields)
              (put_string-Writes rt is_rt 0x22 x.additional_info h.additional_info_fits))
            (put_number-Writes rt is_rt 0x18 x.id h.id_fits))
          (put_string-Writes rt is_rt 0x12 x.issue h.issue_fits))
        (put_string-Writes rt is_rt 0x0a x.author h.author_fits)

  unknowns-Reads :
      Reads (unmarshal_field rt false) x.unknown_fields (record x { unknown_fields = [] }) x
  unfolding unmarshal_field
  unknowns-Reads = rw (← h.unknowns_lem) at (
      Reads-raw (unmarshal_field rt false) rt is_rt 4 (λ u. record x { unknown_fields = u })
        (λ num wire_type pre c old above.
          rw
            (
              unmarshal_field,
              ne→==_false num 1 (omega arith),
              ne→==_false num 2 (omega arith),
              ne→==_false num 3 (omega arith),
              ne→==_false num 4 (omega arith),
            )
            refl)
        h.unknowns h.all_unknown [])

  encoding-Reads : Reads (unmarshal_field rt false) (encoding x) new_ticket x
  unfolding encoding unmarshal_field
  encoding-Reads =
      Reads-append _ (string_field 0x0a x.author) _
        (Reads-string_field _ 0x0a x.author (λ s. record new_ticket { author = s }) (omega arith)
          (omega arith) (omega arith) (λ pre c. refl))
        (Reads-append _ (string_field 0x12 x.issue) _
          (Reads-string_field _ 0x12 x.issue
            (λ s. record new_ticket { author = x.author; issue = s }) (omega arith) (omega arith)
            (omega arith) (λ pre c. refl))
          (Reads-append _ (varint_field 0x18 x.id) _
            (Reads-varint_field _ 64 0x18 x.id
              (λ v. record new_ticket { author = x.author; issue = x.issue; id = v }) h.id_fits
              h.id_fits (omega arith) (omega arith) (omega arith) (λ pre c. refl))
            (Reads-append _ (string_field 0x22 x.additional_info) _
              (Reads-string_field _ 0x22 x.additional_info
                (λ s. record new_ticket {
                  author = x.author;
                  issue = x.issue;
                  id = x.id;
                  additional_info = s;
                })
                (omega arith) (omega arith) (omega arith) (λ pre c. refl))
              (unknowns-Reads))))

  -- For a Ticket of the API whose texts have lengths of a uint64, whose id is one and whose
  -- unknown fields are length-delimited with one-byte tags that no field has: size is the number
  -- of bytes, marshal does not fail and appends these bytes to the buffer, and unmarshal into a
  -- new message gives back the ticket with its unknown fields, where the bytes are fewer than 2 ^
  -- 63 and the runtime's Sov, EncodeVarint and Skip do what they say.
  pub unmarshal-marshal_api_ticket :
      length (encoding x) < 2 ^ 63
      → (buf : Option Bytes)
      → (size rt (some x) ≡ length (encoding x))
        × (marshal rt buf (some x) ≡ some (some (appended buf (encoding x))))
        × (unmarshal rt false (some new_ticket) (encoding x) ≡ ok (some x))
  unfolding size marshal unmarshal size_message
  unmarshal-marshal_api_ticket short buf = (
    size_fields-length,
    marshal_message-Writes _ _ buf x fill-Writes size_fields-length,
    unmarshal_message-Reads _ (encoding x) encoding-Reads short,
  )
