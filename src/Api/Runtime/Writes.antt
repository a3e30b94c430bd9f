-- ===== src/Api/Runtime/Writes.antt =====
-- What the marshallers write, field by field.
use halborn.Prelude.{
  ℕ, ◌+◌, ◌<◌, ◌%◌, ◌^◌, ◌≡◌, refl, arith, Bytes, [], ◌∷◌, ◌++◌, length, length-append, append-nil,
  ltb, ◌==◌, Option, none, some, Bool-cases, inl, inr,
}
use halborn.Wire.Writer.{Writer}
use halborn.Wire.Encoding.{
  Writes, varint, bytes_field, string_field, varint_field, >>-Writes, put_bytes-Writes,
  put_byte-Writes, none-Writes,
}
use halborn.Wire.Result.{ok}
use halborn.Api.Runtime.{
  Runtime, Codec, bytes_size, string_size, number_size, message_size, put_delimited, put_string,
  put_number, put_encoded, put_message, marshal_whole, marshal_message, appended,
}

-- `Sov` is the size of a varint, `EncodeVarint` writes it in front, and `Skip` measures a
-- length-delimited field.
pub record IsRuntime (rt : Runtime) : Type 0 where
  pub sov_lem : (v : ℕ) → v < 2 ^ 64 → rt.sov v ≡ length (varint v)
  pub encode-Writes : (v : ℕ) → v < 2 ^ 64 → Writes (rt.encode_varint v) (varint v)
  pub skip_lem :
      (tag : ℕ) (s rest : Bytes)
      → tag < 128
      → tag % 8 ≡ 2
      → 1 + length (varint (length s)) + length s < 2 ^ 63
      → rt.skip (tag ∷ (varint (length s) ++ (s ++ rest)))
        ≡ ok (1 + length (varint (length s)) + length s)

-- A codec writes `a` as `bs`, fewer than 2 ^ 63, and reads it back into a new message.
pub record Encodes {ℓ} {A : Type ℓ} (codec : Codec A) (a : A) (bs : Bytes) : Type ℓ where
  pub sized : codec.size a ≡ length bs
  pub marshalled : codec.marshal a ≡ some bs
  pub read : codec.unmarshal codec.new_message bs ≡ ok a
  pub short : length bs < 2 ^ 63

-- The same of a pointer, where a nil pointer is left out.
pub data EncodesField {ℓ} {A : Type ℓ} (codec : Codec A) (tag : ℕ) : Option A → Bytes → Type ℓ where
  nil_field : EncodesField codec tag none []
  set_field :
      (a : A) (bs : Bytes)
      → Encodes codec a bs
      → EncodesField codec tag (some a) (bytes_field tag bs)

module _ (rt : Runtime) (h : IsRuntime rt) where
  bytes_size-length :
      (tag : ℕ) (s : Bytes)
      → length s < 2 ^ 64
      → bytes_size rt (length s) ≡ length (bytes_field tag s)
  unfolding bytes_size bytes_field
  bytes_size-length tag s small =
      omega (arith, h.sov_lem (length s) small, length-append (varint (length s)) s)

  pub string_size-length :
      (tag : ℕ) (s : Bytes) → length s < 2 ^ 64 → string_size rt s ≡ length (string_field tag s)
  unfolding string_size string_field
  string_size-length tag s small = elim (Bool-cases (ltb 0 (length s))) [
    | inl some_bytes ↦ rw some_bytes (bytes_size-length tag s small)
    | inr none_at_all ↦ rw none_at_all
  ]

  pub number_size-length : (tag v : ℕ) → v < 2 ^ 64 → number_size rt v ≡ length (varint_field tag v)
  unfolding number_size varint_field
  number_size-length tag v small = elim (Bool-cases (v == 0)) [
    | inl zero ↦ rw zero
    | inr other ↦ rw other (omega (arith, h.sov_lem v small))
  ]

  pub message_size-length {ℓ} :
      {A : Type ℓ} (codec : Codec A) (tag : ℕ) (x : Option A) (bs : Bytes)
      → EncodesField codec tag x bs
      → message_size rt codec x ≡ length bs
  unfolding message_size
  message_size-length codec tag _ _ nil_field = refl
  message_size-length codec tag _ _ (set_field a bs e) =
      rw e.sized (bytes_size-length tag bs (omega (arith, e.short)))

  put_delimited-Writes :
      (tag : ℕ) (s : Bytes)
      → length s < 2 ^ 64
      → Writes (put_delimited rt tag s) (bytes_field tag s)
  unfolding put_delimited bytes_field
  put_delimited-Writes tag s small =
      >>-Writes (>>-Writes (put_bytes-Writes s) (h.encode-Writes (length s) small))
        (put_byte-Writes tag)

  pub put_string-Writes :
      (tag : ℕ) (s : Bytes) → length s < 2 ^ 64 → Writes (put_string rt tag s) (string_field tag s)
  unfolding put_string string_field
  put_string-Writes tag s small = elim (Bool-cases (ltb 0 (length s))) [
    | inl some_bytes ↦ rw some_bytes (put_delimited-Writes tag s small)
    | inr none_at_all ↦ rw none_at_all none-Writes
  ]

  pub put_number-Writes :
      (tag v : ℕ) → v < 2 ^ 64 → Writes (put_number rt tag v) (varint_field tag v)
  unfolding put_number varint_field
  put_number-Writes tag v small = elim (Bool-cases (v == 0)) [
    | inl zero ↦ rw zero none-Writes
    | inr other ↦ rw other (>>-Writes (h.encode-Writes v small) (put_byte-Writes tag))
  ]

  pub put_message-Writes {ℓ} :
      {A : Type ℓ} (codec : Codec A) (tag : ℕ) (x : Option A) (bs : Bytes)
      → EncodesField codec tag x bs
      → Writes (put_message rt codec tag x) bs
  unfolding put_message put_encoded
  put_message-Writes codec tag _ _ nil_field = none-Writes
  put_message-Writes codec tag _ _ (set_field a bs e) =
      rw e.marshalled (put_delimited-Writes tag bs (omega (arith, e.short)))

pub marshal_whole-Writes :
    (size : ℕ) {w : Writer} {bs : Bytes}
    → Writes w bs
    → size ≡ length bs
    → marshal_whole size w ≡ some bs
unfolding marshal_whole
marshal_whole-Writes size {w} {bs} h e =
    let exact : size ≡ length bs + 0 = omega arith in
    rw (exact, marshal_whole, h.at 0 [], append-nil bs)

-- A message that is not nil is marshalled behind what the buffer holds.
pub marshal_message-Writes {ℓ} :
    {M : Type ℓ} (size : M → ℕ) (fill : M → Writer) (buf : Option Bytes) (x : M) {bs : Bytes}
    → Writes (fill x) bs
    → size x ≡ length bs
    → marshal_message size fill buf (some x) ≡ some (some (appended buf bs))
unfolding marshal_message
marshal_message-Writes size fill buf x h e = rw (marshal_message, marshal_whole-Writes (size x) h e)
