-- ===== src/Wire/Fails.antt =====
-- Inputs on which a message's Unmarshal ends with an error.
use halborn.Prelude.{
  ℕ, zero, suc, ◌+◌, ◌/◌, ◌%◌, ◌≤◌, ◌<◌, ◌^◌, ◌≡◌, ◌≢◌, arith, Bytes, [], ◌∷◌, ◌++◌, length,
  length-append, append-nil, append_assoc,
}
use halborn.Wire.Result.{Result, WireError, wrong_wire_type, err}
use halborn.Wire.Reader.{Cursor, bytes_case, unmarshal_loop, unmarshal_all}
use halborn.Wire.VarintRead.{after}
use halborn.Wire.Encoding.{varint, bytes_field}
use halborn.Wire.Cases.{bytes_case-fails}
use halborn.Wire.Reads.{Reads, unmarshal_stop}

module _ {ℓ} {M : Type ℓ} (field : ℕ → ℕ → Cursor → Cursor → M → Result (M × Cursor)) where
  -- The loop stops with an error on `bs`, whatever follows.
  pub record Fails (bs : Bytes) (m : M) (e : WireError) : Type ℓ where
    pub from :
        (fuel idx : ℕ) (rest : Bytes)
        → length bs + length rest ≤ fuel
        → idx + length bs + length rest < 2 ^ 63
        → unmarshal_loop field fuel m (after idx (bs ++ rest)) ≡ err e

  -- A field whose case refuses the wire type of its tag.
  pub Fails-wrong_type :
      (tag : ℕ) (bs : Bytes) {m : M}
      → tag < 128
      → 8 ≤ tag
      → tag % 8 ≢ 4
      → ((pre c : Cursor) → field (tag / 8) (tag % 8) pre c m ≡ err wrong_wire_type)
      → Fails (tag ∷ bs) m wrong_wire_type
  Fails-wrong_type tag bs {m} h lo ne case = record { from = from }
    where
      from :
          (fuel idx : ℕ) (rest : Bytes)
          → suc (length bs) + length rest ≤ fuel
          → idx + suc (length bs) + length rest < 2 ^ 63
          → unmarshal_loop field fuel m (after idx (tag ∷ (bs ++ rest))) ≡ err wrong_wire_type
      from zero idx rest hf hb = absurd (omega arith)
      from (suc fuel) idx rest hf hb =
          unmarshal_stop field tag fuel idx (bs ++ rest) m wrong_wire_type h lo ne (case _ _)

  -- A length-delimited field whose own codec fails.
  pub Fails-nested :
      (tag : ℕ) (s : Bytes) {m : M} (read : Bytes → Result M) (e : WireError)
      → tag < 128
      → 8 ≤ tag
      → tag % 8 ≢ 4
      → ((pre c : Cursor) → field (tag / 8) (tag % 8) pre c m ≡ bytes_case 2 read c)
      → read s ≡ err e
      → Fails (bytes_field tag s) m e
  unfolding bytes_field
  Fails-nested tag s {m} read e h lo ne case fails = record { from = from }
    where
      from :
          (fuel idx : ℕ) (rest : Bytes)
          → suc (length (varint (length s) ++ s)) + length rest ≤ fuel
          → idx + suc (length (varint (length s) ++ s)) + length rest < 2 ^ 63
          → unmarshal_loop field fuel m (after idx (tag ∷ ((varint (length s) ++ s) ++ rest)))
            ≡ err e
      from zero idx rest hf hb = absurd (omega arith)
      from (suc fuel) idx rest hf hb =
          unmarshal_stop field tag fuel idx ((varint (length s) ++ s) ++ rest) m e h lo ne (
            rw
              (
                case (after idx (tag ∷ ((varint (length s) ++ s) ++ rest)))
                    (after (idx + 1) ((varint (length s) ++ s) ++ rest)),
                append_assoc,
              )
              (bytes_case-fails s read e (idx + 1) rest
                (omega (arith, length-append (varint (length s)) s)) fails))

  pub Fails-after :
      (front back : Bytes) {m m' : M} {e : WireError}
      → Reads field front m m'
      → Fails back m' e
      → Fails (front ++ back) m e
  Fails-after front back f g = record {
    from = λ fuel idx rest h b.
        let whole = length-append front back in
        let tail = length-append back rest in
        let (mid, hm, em) = f.from fuel idx (back ++ rest) (omega arith) (omega arith) in
        rw (append_assoc front back rest, em)
          (g.from mid (idx + length front) rest (omega arith) (omega arith));
  }

  -- Bytes behind a failing field do not matter.
  pub Fails-before :
      (front back : Bytes) {m : M} {e : WireError} → Fails front m e → Fails (front ++ back) m e
  Fails-before front back f = record {
    from = λ fuel idx rest h b.
        let whole = length-append front back in
        let tail = length-append back rest in
        rw (append_assoc front back rest)
          (f.from fuel idx (back ++ rest) (omega arith) (omega arith));
  }

  pub unmarshal_all-Fails :
      (bs : Bytes) {m : M} {e : WireError}
      → Fails bs m e
      → length bs < 2 ^ 63
      → unmarshal_all field m bs ≡ err e
  unfolding unmarshal_all
  unmarshal_all-Fails bs f h =
      rw append-nil at (f.from (length bs) 0 [] (omega arith) (omega arith))
