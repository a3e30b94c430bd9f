-- ===== src/Api/MsgCreateTicket/RoundTrip.antt =====
-- A MsgCreateTicket is read back as it was written, its unknown fields included.
use halborn.Prelude.{
  ◌<◌, ◌^◌, ◌≡◌, refl, arith, Bytes, [], ◌++◌, length, length-append, List, false, Option, some,
  ne→==_false,
}
use halborn.Wire.Result.{ok}
use halborn.Wire.Encoding.{Writes, string_field, >>-Writes, put_bytes-Writes}
use halborn.Wire.Reads.{Reads, Reads-append, Reads-string_field}
use halborn.Api.Runtime.{Runtime, appended, size_message}
use halborn.Api.Runtime.Writes.{
  IsRuntime, string_size-length, put_string-Writes, marshal_message-Writes,
}
use halborn.Api.Runtime.Reads.{Unknown, raw, AllUnknown, Reads-raw, unmarshal_message-Reads}
use halborn.Api.MsgCreateTicket.{MsgCreateTicket, new_msg_create_ticket}
use halborn.Api.MsgCreateTicket.Codec.{size_fields, fill, unmarshal_field, size, marshal, unmarshal}

-- The fields in the order of their numbers, and then the unknown ones.
unfoldable pub encoding : MsgCreateTicket → Bytes
encoding x =
    string_field 0x0a x.creator
    ++ (string_field 0x12 x.author ++ (string_field 0x1a x.issue ++ x.unknown_fields))

-- Texts and numbers are of the widths of their fields, and the unknown fields are length-delimited.
pub record Fits (x : MsgCreateTicket) : Type 0 where
  pub creator_fits : length x.creator < 2 ^ 64
  pub author_fits : length x.author < 2 ^ 64
  pub issue_fits : length x.issue < 2 ^ 64
  pub unknowns : List Unknown
  pub unknowns_lem : x.unknown_fields ≡ raw unknowns
  pub all_unknown : AllUnknown 3 unknowns

module _ (rt : Runtime) (is_rt : IsRuntime rt) (x : MsgCreateTicket) (h : Fits x) where
  size_fields-length : size_fields rt x ≡ length (encoding x)
  unfolding size_fields encoding
  size_fields-length =
      let s1 = string_field 0x0a x.creator in
      let s2 = string_field 0x12 x.author in
      let s3 = string_field 0x1a x.issue in
      omega (
        arith,
        string_size-length rt is_rt 0x0a x.creator h.creator_fits,
        string_size-length rt is_rt 0x12 x.author h.author_fits,
        string_size-length rt is_rt 0x1a x.issue h.issue_fits,
        length-append s1 (s2 ++ (s3 ++ x.unknown_fields)),
        length-append s2 (s3 ++ x.unknown_fields),
        length-append s3 x.unknown_fields,
      )

  fill-Writes : Writes (fill rt x) (encoding x)
  unfolding fill encoding
  fill-Writes =
      >>-Writes
        (>>-Writes
          (>>-Writes (put_bytes-Writes x.unknown_fields)
            (put_string-Writes rt is_rt 0x1a x.issue h.issue_fits))
          (put_string-Writes rt is_rt 0x12 x.author h.author_fits))
        (put_string-Writes rt is_rt 0x0a x.creator h.creator_fits)

  unknowns-Reads :
      Reads (unmarshal_field rt false) x.unknown_fields (record x { unknown_fields = [] }) x
  unfolding unmarshal_field
  unknowns-Reads = rw (← h.unknowns_lem) at (
      Reads-raw (unmarshal_field rt false) rt is_rt 3 (λ u. record x { unknown_fields = u })
        (λ num wire_type pre c old above.
          rw
            (
              unmarshal_field,
              ne→==_false num 1 (omega arith),
              ne→==_false num 2 (omega arith),
              ne→==_false num 3 (omega arith),
            )
            refl)
        h.unknowns h.all_unknown [])

  encoding-Reads : Reads (unmarshal_field rt false) (encoding x) new_msg_create_ticket x
  unfolding encoding unmarshal_field
  encoding-Reads =
      Reads-append _ (string_field 0x0a x.creator) _
        (Reads-string_field _ 0x0a x.creator (λ s. record new_msg_create_ticket { creator = s })
          (omega arith) (omega arith) (omega arith) (λ pre c. refl))
        (Reads-append _ (string_field 0x12 x.author) _
          (Reads-string_field _ 0x12 x.author
            (λ s. record new_msg_create_ticket { creator = x.creator; author = s }) (omega arith)
            (omega arith) (omega arith) (λ pre c. refl))
          (Reads-append _ (string_field 0x1a x.issue) _
            (Reads-string_field _ 0x1a x.issue
              (λ s. record new_msg_create_ticket {
                creator = x.creator;
                author = x.author;
                issue = s;
              })
              (omega arith) (omega arith) (omega arith) (λ pre c. refl))
            (unknowns-Reads)))

  pub unmarshal-marshal_api_msg_create_ticket :
      length (encoding x) < 2 ^ 63
      → (buf : Option Bytes)
      → (size rt (some x) ≡ length (encoding x))
        × (marshal rt buf (some x) ≡ some (some (appended buf (encoding x))))
        × (unmarshal rt false (some new_msg_create_ticket) (encoding x) ≡ ok (some x))
  unfolding size marshal unmarshal size_message
  unmarshal-marshal_api_msg_create_ticket short buf = (
    size_fields-length,
    marshal_message-Writes _ _ buf x fill-Writes size_fields-length,
    unmarshal_message-Reads _ (encoding x) encoding-Reads short,
  )
