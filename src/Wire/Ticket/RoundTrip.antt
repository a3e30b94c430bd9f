-- ===== src/Wire/Ticket/RoundTrip.antt =====
-- A stored ticket is read back as it was written.
use halborn.Prelude.{◌<◌, ◌^◌, ◌≡◌, refl, arith, Bytes, [], ◌++◌, length, length-append, some}
use halborn.Types.Records.{Ticket, no_ticket}
use halborn.Wire.Result.{ok}
use halborn.Wire.Encoding.{
  Writes, string_field, varint_field, >>-Writes, put_string_field-Writes, put_varint_field-Writes,
  string_field_size-length, varint_field_size-length, marshal_sized-Writes,
}
use halborn.Wire.Reads.{
  Reads, Reads-append, Reads-string_field, Reads-varint_field, unmarshal_all-Reads,
}
use halborn.Wire.Ticket.{size, marshal_to_sized_buffer, marshal, unmarshal_field, unmarshal}

-- The fields in the order of their numbers; those that are empty are left out.
unfoldable pub encoding : Ticket → Bytes
encoding t =
    string_field 0x0a t.author
    ++ (string_field 0x12 t.issue
        ++ (varint_field 0x18 t.id ++ string_field 0x22 t.additional_info))

-- A ticket whose strings have lengths that a uint64 holds.
pub record Fits (t : Ticket) : Type 0 where
  pub author_fits : length t.author < 2 ^ 64
  pub issue_fits : length t.issue < 2 ^ 64
  pub id_fits : t.id < 2 ^ 64
  pub info_fits : length t.additional_info < 2 ^ 64

size-length : (t : Ticket) → Fits t → size t ≡ length (encoding t)
unfolding size encoding
size-length t h =
    let a = string_field 0x0a t.author in
    let b = string_field 0x12 t.issue in
    let c = varint_field 0x18 t.id in
    let d = string_field 0x22 t.additional_info in
    omega (
      arith,
      string_field_size-length 0x0a t.author h.author_fits,
      string_field_size-length 0x12 t.issue h.issue_fits,
      varint_field_size-length 0x18 t.id h.id_fits,
      string_field_size-length 0x22 t.additional_info h.info_fits,
      length-append a (b ++ (c ++ d)),
      length-append b (c ++ d),
      length-append c d,
    )

marshal_to_sized_buffer-Writes :
    (t : Ticket) → Fits t → Writes (marshal_to_sized_buffer t) (encoding t)
unfolding marshal_to_sized_buffer encoding
marshal_to_sized_buffer-Writes t h =
    >>-Writes
      (>>-Writes
        (>>-Writes (put_string_field-Writes 0x22 t.additional_info h.info_fits)
          (put_varint_field-Writes 0x18 t.id h.id_fits))
        (put_string_field-Writes 0x12 t.issue h.issue_fits))
      (put_string_field-Writes 0x0a t.author h.author_fits)

-- Marshalling a ticket does not panic: `Size` is exactly what `MarshalToSizedBuffer` fills.
pub marshal-encoding : (t : Ticket) → Fits t → marshal t ≡ some (encoding t)
unfolding marshal
marshal-encoding t h =
    marshal_sized-Writes (size t) (marshal_to_sized_buffer-Writes t h) (size-length t h)

encoding-Reads : (t : Ticket) → Fits t → Reads unmarshal_field (encoding t) no_ticket t
unfolding encoding unmarshal_field
encoding-Reads t h =
    Reads-append _ (string_field 0x0a t.author) _
      (Reads-string_field _ 0x0a t.author (λ s. record no_ticket { author = s }) (omega arith)
        (omega arith) (omega arith) (λ pre c. refl))
      (Reads-append _ (string_field 0x12 t.issue) _
        (Reads-string_field _ 0x12 t.issue (λ s. record no_ticket { author = t.author; issue = s })
          (omega arith) (omega arith) (omega arith) (λ pre c. refl))
        (Reads-append _ (varint_field 0x18 t.id) _
          (Reads-varint_field _ 64 0x18 t.id (λ v. record t { id = v; additional_info = [] })
            h.id_fits h.id_fits (omega arith) (omega arith) (omega arith) (λ pre c. refl))
          (Reads-string_field _ 0x22 t.additional_info (λ s. record t { additional_info = s })
            (omega arith) (omega arith) (omega arith) (λ pre c. refl))))

-- Unmarshalling gives back the ticket, where the whole message is shorter than 2 ^ 63 bytes.
pub unmarshal-encoding :
    (t : Ticket) → Fits t → length (encoding t) < 2 ^ 63 → unmarshal (encoding t) ≡ ok t
unfolding unmarshal
unmarshal-encoding t h short =
    unmarshal_all-Reads unmarshal_field (encoding t) (encoding-Reads t h) short

-- Ticket.Marshal does not panic on a ticket whose texts have lengths of a uint64 and whose id is
-- one, and Ticket.Unmarshal inverts it where the bytes are fewer than 2 ^ 63.
pub unmarshal-marshal_ticket :
    (t : Ticket)
    → Fits t
    → length (encoding t) < 2 ^ 63
    → (bs : Bytes) × (marshal t ≡ some bs) × (unmarshal bs ≡ ok t)
unmarshal-marshal_ticket t h short =
    (encoding t, marshal-encoding t h, unmarshal-encoding t h short)
