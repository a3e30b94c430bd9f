-- ===== src/Api/Runtime/Reads.antt =====
-- Reading back what the marshallers write: fields that are messages, and unknown fields.
use halborn.Prelude.{
  ℕ, suc, ◌+◌, ◌/◌, ◌%◌, ◌<◌, ◌≤◌, ◌^◌, ◌≡◌, ◌≢◌, arith, Bytes, [], ◌∷◌, ◌++◌, length,
  length-append, append_assoc, append-nil, drop-append_length, take-append_length, lt→leb_false,
  le→ltb_false, List, Option, none, some, false,
}
use halborn.Wire.Result.{Result, ok, ◌>>=◌}
use halborn.Wire.Reader.{Cursor, varint_case}
use halborn.Wire.Params.{to_u64, to_i32}
use halborn.Prelude.Int.{ℤ, pos}
use halborn.Wire.VarintRead.{after}
use halborn.Wire.Encoding.{varint, bytes_field, varint_field}
use halborn.Wire.Reads.{
  Reads, Reads-nil, Reads-append, Reads-case, Reads-bytes_field, Reads-varint_field,
  unmarshal_all-Reads,
}
use halborn.Api.Runtime.{Runtime, Codec}
use halborn.Api.Runtime.Unmarshal.{keep_unknown, message_case, unmarshal_message}
use halborn.Api.Runtime.Writes.{IsRuntime, EncodesField, nil_field, set_field}

-- Fields that a message does not have: each has a tag and bytes.
pub record Unknown : Type 0 where
  pub tag : ℕ
  pub payload : Bytes

abbrev pub raw : List Unknown → Bytes
raw [] = []
raw (u ∷ us) = bytes_field u.tag u.payload ++ raw us

-- A length-delimited field with a one-byte tag and a number above `last`.
pub record IsUnknown (last : ℕ) (u : Unknown) : Type 0 where
  pub one_byte : u.tag < 128
  pub delimited : u.tag % 8 ≡ 2
  pub foreign : last < u.tag / 8

pub data AllUnknown (last : ℕ) : List Unknown → Type 0 where
  no_unknown : AllUnknown last []
  more_unknown :
      (u : Unknown) (us : List Unknown)
      → IsUnknown last u
      → AllUnknown last us
      → AllUnknown last (u ∷ us)

-- The field is kept whole, its tag included.
keep_unknown-field {ℓ} :
    {M : Type ℓ} (rt : Runtime)
    → IsRuntime rt
    → (keep : Bytes → M) (tag : ℕ) (s : Bytes) (idx : ℕ) (rest : Bytes) (m : M) → tag < 128
    → tag % 8 ≡ 2
    → idx + 1 + length (varint (length s)) + length s < 2 ^ 63
    → keep_unknown rt false keep m (after idx (tag ∷ ((varint (length s) ++ s) ++ rest)))
      ≡ ok (keep (bytes_field tag s), after (idx + 1 + length (varint (length s) ++ s)) rest)
unfolding keep_unknown bytes_field
keep_unknown-field rt h keep tag s idx rest m one two fits =
    let body = varint (length s) ++ s in
    let whole = length-append (varint (length s)) s in
    let size : 1 + length (varint (length s)) + length s ≡ suc (length body) = omega arith in
    let position : idx + suc (length body) ≡ idx + 1 + length body = omega arith in
    let measured =
      rw (← append_assoc (varint (length s)) s rest, size) at
        (h.skip_lem tag s rest one two (omega arith)) in
    rw (
      measured,
      lt→leb_false (2 ^ 63) (suc (length body)) (omega arith),
      lt→leb_false (2 ^ 63) (idx + suc (length body)) (omega arith),
      le→ltb_false (suc (length (body ++ rest))) (suc (length body))
          (omega (arith, length-append body rest)),
      drop-append_length body rest,
      take-append_length body rest,
      position,
    )

module _ {ℓ} {M : Type ℓ} (field : ℕ → ℕ → Cursor → Cursor → M → Result (M × Cursor)) where
  -- `with_unknown` is the message, as a function of its unknown fields.
  pub Reads-raw :
      (rt : Runtime) (h : IsRuntime rt) (last : ℕ) (with_unknown : Bytes → M)
      → ((num wire_type : ℕ) (pre c : Cursor) (old : Bytes)
          → last < num
          → field num wire_type pre c (with_unknown old)
            ≡ keep_unknown rt false (λ new. with_unknown (old ++ new)) (with_unknown old) pre)
      → (us : List Unknown) → AllUnknown last us
      → (old : Bytes) → Reads field (raw us) (with_unknown old) (with_unknown (old ++ raw us))
  unfolding bytes_field
  Reads-raw rt h last with_unknown case _ no_unknown old =
      rw (append-nil old) (Reads-nil field (with_unknown old))
  Reads-raw rt h last with_unknown case _ (more_unknown u us this others) old =
      let s = u.payload in
      Reads-append field (bytes_field u.tag s) (raw us) (one u this old) (
        rw (append_assoc old (bytes_field u.tag s) (raw us)) at
          (Reads-raw rt h last with_unknown case us others (old ++ bytes_field u.tag s)))
    where
      one :
          (u : Unknown)
          → IsUnknown last u
          → (old : Bytes)
          → Reads field
              (bytes_field u.tag u.payload)
              (with_unknown old)
              (with_unknown (old ++ bytes_field u.tag u.payload))
      one u k old =
          let s = u.payload in
          Reads-case field u.tag (varint (length s) ++ s) k.one_byte (omega (arith, k.foreign))
            (omega (arith, k.delimited))
            λ idx rest fits.
              rw
                (case (u.tag / 8) (u.tag % 8)
                  (after idx (u.tag ∷ ((varint (length s) ++ s) ++ rest)))
                  (after (idx + 1) ((varint (length s) ++ s) ++ rest)) old k.foreign)
                (keep_unknown-field rt h (λ new. with_unknown (old ++ new)) u.tag s idx rest
                  (with_unknown old) k.one_byte k.delimited
                  (omega (arith, length-append (varint (length s)) s)))

  -- A field that is a message, read into a nil pointer.
  pub Reads-message {κ} :
      {A : Type κ} (codec : Codec A) (tag : ℕ) (x : Option A) (bs : Bytes) (set : Option A → M)
      → tag < 128
      → 8 ≤ tag
      → tag % 8 ≡ 2
      → ((pre c : Cursor)
          → field (tag / 8) (tag % 8) pre c (set none) ≡ message_case codec 2 none set c)
      → EncodesField codec tag x bs
      → Reads field bs (set none) (set x)
  unfolding message_case
  Reads-message codec tag _ _ set h lo two case nil_field = Reads-nil field (set none)
  Reads-message codec tag _ _ set h lo two case (set_field a bs e) =
      Reads-bytes_field field tag bs
        (λ s. codec.unmarshal codec.new_message s >>= λ b. ok (set (some b))) h lo (omega arith)
        case (rw e.read)

  -- An int32 that is not negative, left out where it is 0.
  pub Reads-int32_field :
      (tag : ℕ) (z : ℤ) (n : ℕ) (set : ℤ → M)
      → z ≡ pos n
      → n < 2 ^ 31
      → tag < 128
      → 8 ≤ tag
      → tag % 8 ≢ 4
      → ((pre c : Cursor)
          → field (tag / 8) (tag % 8) pre c (set (pos 0))
            ≡ varint_case 32 0 (λ v. set (to_i32 v)) c)
      → Reads field (varint_field tag (to_u64 z)) (set (pos 0)) (set z)
  Reads-int32_field tag z n set is_n small h lo ne case =
      let same : to_i32 n ≡ pos n = ground arith in
      rw is_n (
        rw same at (
          Reads-varint_field field 32 tag n (λ v. set (to_i32 v)) (omega arith) (omega arith) h lo
            ne case))

  pub unmarshal_message-Reads :
      (bs : Bytes) {m m' : M}
      → Reads field bs m m'
      → length bs < 2 ^ 63
      → unmarshal_message field (some m) bs ≡ ok (some m')
  unfolding unmarshal_message
  unmarshal_message-Reads bs r short = rw (unmarshal_all-Reads field bs r short)
