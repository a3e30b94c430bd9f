-- ===== src/Wire/Encoding.antt =====
-- What the writers write, as plain bytes: one rule for each way to build a writer.
use halborn.Prelude.{
  suc, ◌-◌, ℕ, ◌+◌, ◌<◌, ◌^◌, ◌≡◌, ap, arith, Bytes, [], ◌∷◌, ◌++◌, length, length-append,
  length-replicate, drop-append_length, take-length, append-nil, append_assoc, replicate, ltb, ◌==◌,
  if◌then◌else◌, some, Bool-cases, inl, inr, drop,
}
use halborn.Wire.Writer.{
  put_message_field, Writer, Buffer, ◌>>◌, put_byte, put_bytes, encode_varint, put_bytes_field,
  put_string_field, put_varint_field, bytes_field_size, string_field_size, varint_field_size,
  marshal_sized, sov, varint_loop, overwrite,
}
use halborn.Wire.Varint.{sov-length}

abbrev pub varint : ℕ → Bytes
varint v = varint_loop 9 v

unfoldable pub bytes_field : ℕ → Bytes → Bytes
bytes_field tag s = tag ∷ (varint (length s) ++ s)

unfoldable pub string_field : ℕ → Bytes → Bytes
unfolding bytes_field
string_field tag s = if ltb 0 (length s) then bytes_field tag s else []

unfoldable pub varint_field : ℕ → ℕ → Bytes
varint_field tag v = if v == 0 then [] else tag ∷ varint v

abbrev filled : ℕ → Bytes → Buffer
filled room out = record { room = room; out = out }

-- With room enough `w` puts `bs` in front of what is written, and does not panic.
pub record Writes (w : Writer) (bs : Bytes) : Type 0 where
  pub at :
      (room : ℕ) (out : Bytes) → w (filled (length bs + room) out) ≡ some (filled room (bs ++ out))

pub put_byte-Writes : (b : ℕ) → Writes (put_byte b) (b ∷ [])
unfolding put_byte
put_byte-Writes b = record { at = λ room out. ground arith }

pub put_bytes-Writes : (s : Bytes) → Writes (put_bytes s) s
unfolding put_bytes
put_bytes-Writes s = record { at = λ room out. ground arith }

overwrite_zeros :
    (s out : Bytes) (n : ℕ) → n ≡ length s → overwrite (replicate n 0 ++ out) s ≡ s ++ out
overwrite_zeros s out n e =
    let zeros : drop n (replicate n 0 ++ out) ≡ out =
      rw (length-replicate {A = ℕ} n 0) at (drop-append_length (replicate n 0) out) in
    rw (← e, zeros)

pub encode_varint-Writes : (v : ℕ) → v < 2 ^ 64 → Writes (encode_varint v) (varint v)
unfolding encode_varint
encode_varint-Writes v h = record {
  at = λ room out. ground (arith, sov-length v h, overwrite_zeros (varint v) out (sov v));
}

pub none-Writes : Writes some []
none-Writes = record { at = λ room out. ground arith }

pub >>-Writes : {f g : Writer} {a b : Bytes} → Writes f a → Writes g b → Writes (f >> g) (b ++ a)
>>-Writes {f} {g} {a} {b} hf hg = record {
  at = λ room out.
      let regroup : length (b ++ a) + room ≡ length a + (length b + room) =
        omega (arith, length-append b a) in
      rw (regroup, ◌>>◌, hf.at (length b + room) out, hg.at room (a ++ out), append_assoc);
}

pub put_bytes_field-Writes :
    (tag : ℕ) (s : Bytes) → length s < 2 ^ 64 → Writes (put_bytes_field tag s) (bytes_field tag s)
unfolding put_bytes_field bytes_field
put_bytes_field-Writes tag s h =
    >>-Writes (>>-Writes (put_bytes-Writes s) (encode_varint-Writes (length s) h))
      (put_byte-Writes tag)

pub put_string_field-Writes :
    (tag : ℕ) (s : Bytes) → length s < 2 ^ 64 → Writes (put_string_field tag s) (string_field tag s)
unfolding put_string_field string_field
put_string_field-Writes tag s h = elim (Bool-cases (ltb 0 (length s))) [
  | inl some_bytes ↦ rw some_bytes (put_bytes_field-Writes tag s h)
  | inr none_at_all ↦ rw none_at_all none-Writes
]

pub put_varint_field-Writes :
    (tag v : ℕ) → v < 2 ^ 64 → Writes (put_varint_field tag v) (varint_field tag v)
unfolding put_varint_field varint_field
put_varint_field-Writes tag v h = elim (Bool-cases (v == 0)) [
  | inl zero ↦ rw zero none-Writes
  | inr other ↦ rw other (>>-Writes (encode_varint-Writes v h) (put_byte-Writes tag))
]

pub put_message_field-Writes :
    (tag : ℕ) {w : Writer} {bs : Bytes}
    → Writes w bs
    → length bs < 2 ^ 64
    → Writes (put_message_field tag w) (bytes_field tag bs)
unfolding put_message_field bytes_field
put_message_field-Writes tag {w} {bs} h small = record {
  at = λ room out.
      let rest = >>-Writes (encode_varint-Writes (length bs) small) (put_byte-Writes tag) in
      let head = varint (length bs) in
      let size = length-append head bs in
      let regroup : suc (length (head ++ bs)) + room ≡ length bs + (suc (length head) + room) =
        omega arith in
      let written : suc (length (head ++ bs)) + room - (suc (length head) + room) ≡ length bs =
        omega arith in
      rw
        (
          put_message_field,
          rw (← regroup) at (h.at (suc (length head) + room) out),
          written,
          append_assoc head bs out,
        )
        (rest.at room (bs ++ out));
}

-- `Size` agrees with what is written.
pub bytes_field_size-length :
    (tag : ℕ) (s : Bytes)
    → length s < 2 ^ 64
    → bytes_field_size (length s) ≡ length (bytes_field tag s)
unfolding bytes_field_size bytes_field
bytes_field_size-length tag s h =
    omega (arith, sov-length (length s) h, length-append (varint (length s)) s)

pub string_field_size-length :
    (tag : ℕ) (s : Bytes) → length s < 2 ^ 64 → string_field_size s ≡ length (string_field tag s)
unfolding string_field_size string_field
string_field_size-length tag s h = elim (Bool-cases (ltb 0 (length s))) [
  | inl some_bytes ↦ rw some_bytes (bytes_field_size-length tag s h)
  | inr none_at_all ↦ rw none_at_all
]

pub varint_field_size-length :
    (tag v : ℕ) → v < 2 ^ 64 → varint_field_size v ≡ length (varint_field tag v)
unfolding varint_field_size varint_field
varint_field_size-length tag v h = elim (Bool-cases (v == 0)) [
  | inl zero ↦ rw zero
  | inr other ↦ rw other (omega (arith, sov-length v h))
]

-- A buffer of the right size is filled to its front.
pub marshal_sized-Writes :
    (size : ℕ) {w : Writer} {bs : Bytes}
    → Writes w bs
    → size ≡ length bs
    → marshal_sized size w ≡ some bs
unfolding marshal_sized
marshal_sized-Writes size {w} {bs} h e =
    let exact : size ≡ length bs + 0 = omega arith in
    rw (exact, marshal_sized, h.at 0 [], append-nil bs) (ap some (take-length bs))
