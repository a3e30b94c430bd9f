-- ===== src/Wire/Reads.antt =====
-- Reading back what a message's writers wrote, field by field.
use halborn.Prelude.{
  ℕ, zero, suc, ◌+◌, ◌/◌, ◌%◌, ◌≤◌, ◌<◌, ◌^◌, ◌≡◌, ◌≢◌, refl, ◌∙◌, arith, Bytes, [], ◌∷◌, ◌++◌,
  length, length-append, append-nil, append_assoc, ne→==_false, lt→leb_false, lt→ltb,
}
use halborn.Wire.Result.{Result, WireError, ok, err}
use halborn.Wire.Reader.{
  Cursor, bytes_case, varint_case, unmarshal_loop, unmarshal_all, skip_unknown,
}
use halborn.Wire.VarintRead.{after}
use halborn.Wire.Encoding.{varint, bytes_field, string_field, varint_field}
use halborn.Wire.Cases.{read_tag, bytes_case-field, varint_case-field, skip_unknown-field}

module _ {ℓ} {M : Type ℓ} (field : ℕ → ℕ → Cursor → Cursor → M → Result (M × Cursor)) where
  -- The loop takes `bs` off the front of any input, and turns `m` into `m'`.
  pub record Reads (bs : Bytes) (m m' : M) : Type ℓ where
    pub from :
        (fuel idx : ℕ) (rest : Bytes)
        → length bs + length rest ≤ fuel
        → idx + length bs + length rest < 2 ^ 63
        → (left : ℕ) × (length rest ≤ left)
          × (unmarshal_loop field fuel m (after idx (bs ++ rest))
              ≡ unmarshal_loop field left m' (after (idx + length bs) rest))

  pub Reads-nil : (m : M) → Reads [] m m
  Reads-nil m = record {
    from =
        λ fuel idx rest h b. let same : idx + 0 ≡ idx = omega arith in (fuel, omega arith, rw same);
  }

  pub Reads-append :
      (front back : Bytes) {m m' m'' : M}
      → Reads front m m'
      → Reads back m' m''
      → Reads (front ++ back) m m''
  Reads-append front back f g = record {
    from = λ fuel idx rest h b.
        let whole = length-append front back in
        let tail = length-append back rest in
        let (mid, hm, em) = f.from fuel idx (back ++ rest) (omega arith) (omega arith) in
        let (left, hl, el) = g.from mid (idx + length front) rest (omega arith) (omega arith) in
        let position : idx + length (front ++ back) ≡ idx + length front + length back =
          omega arith in
        (left, hl, rw (append_assoc front back rest, position, em) el);
  }

  -- One round on a field whose case succeeds.
  unmarshal_step :
      (tag fuel idx : ℕ) (more : Bytes) (m m' : M) (c : Cursor)
      → tag < 128
      → 8 ≤ tag
      → tag % 8 ≢ 4
      → field (tag / 8) (tag % 8) (after idx (tag ∷ more)) (after (idx + 1) more) m ≡ ok (m', c)
      → unmarshal_loop field (suc fuel) m (after idx (tag ∷ more)) ≡ unmarshal_loop field fuel m' c
  unfolding unmarshal_loop
  unmarshal_step tag fuel idx more m m' c h lo ne e =
      let num : tag / 8 % 2 ^ 32 ≡ tag / 8 = omega arith in
      rw (
        read_tag tag idx more h,
        ne→==_false (tag % 8) 4 ne,
        num,
        ne→==_false (tag / 8) 0 (omega arith),
        lt→leb_false (2 ^ 31) (tag / 8) (omega arith),
        e,
      )

  pub unmarshal_stop :
      (tag fuel idx : ℕ) (more : Bytes) (m : M) (e : WireError)
      → tag < 128
      → 8 ≤ tag
      → tag % 8 ≢ 4
      → field (tag / 8) (tag % 8) (after idx (tag ∷ more)) (after (idx + 1) more) m ≡ err e
      → unmarshal_loop field (suc fuel) m (after idx (tag ∷ more)) ≡ err e
  unfolding unmarshal_loop
  unmarshal_stop tag fuel idx more m e h lo ne fails =
      let num : tag / 8 % 2 ^ 32 ≡ tag / 8 = omega arith in
      rw (
        read_tag tag idx more h,
        ne→==_false (tag % 8) 4 ne,
        num,
        ne→==_false (tag / 8) 0 (omega arith),
        lt→leb_false (2 ^ 31) (tag / 8) (omega arith),
        fails,
      )

  -- A field whose bytes after the tag are `bs`, where the message's switch has a case for it.
  pub Reads-case :
      (tag : ℕ) (bs : Bytes) {m m' : M}
      → tag < 128
      → 8 ≤ tag
      → tag % 8 ≢ 4
      → ((idx : ℕ) (rest : Bytes)
          → idx + 1 + length bs < 2 ^ 63
          → field
              (tag / 8)
              (tag % 8)
              (after idx (tag ∷ (bs ++ rest)))
              (after (idx + 1) (bs ++ rest))
              m
            ≡ ok (m', after (idx + 1 + length bs) rest))
      → Reads (tag ∷ bs) m m'
  Reads-case tag bs {m} {m'} h lo ne case = record { from = from }
    where
      from :
          (fuel idx : ℕ) (rest : Bytes)
          → suc (length bs) + length rest ≤ fuel
          → idx + suc (length bs) + length rest < 2 ^ 63
          → (left : ℕ) × (length rest ≤ left)
            × (unmarshal_loop field fuel m (after idx (tag ∷ (bs ++ rest)))
                ≡ unmarshal_loop field left m' (after (idx + suc (length bs)) rest))
      from zero idx rest hf hb = absurd (omega arith)
      from (suc fuel) idx rest hf hb =
          let position : idx + suc (length bs) ≡ idx + 1 + length bs = omega arith in
          (
            fuel,
            omega arith,
            rw position (
                unmarshal_step tag fuel idx (bs ++ rest) m m' (after (idx + 1 + length bs) rest) h
                  lo ne (case idx rest (omega arith))),
          )

  -- A length-delimited field.
  pub Reads-bytes_field :
      (tag : ℕ) (s : Bytes) {m m' : M} (read : Bytes → Result M)
      → tag < 128
      → 8 ≤ tag
      → tag % 8 ≢ 4
      → ((pre c : Cursor) → field (tag / 8) (tag % 8) pre c m ≡ bytes_case 2 read c)
      → read s ≡ ok m'
      → Reads (bytes_field tag s) m m'
  unfolding bytes_field
  Reads-bytes_field tag s {m} {m'} read h lo ne case e =
      Reads-case tag (varint (length s) ++ s) h lo ne λ idx rest fits.
        let split = length-append (varint (length s)) s in
        let position : idx + 1 + length (varint (length s) ++ s)
            ≡ idx + 1 + length (varint (length s)) + length s =
          omega arith in
        rw (case _ (after (idx + 1) ((varint (length s) ++ s) ++ rest)), append_assoc, position)
          (bytes_case-field s read m' (idx + 1) rest (omega arith) e)

  -- A string field, left out where the string is empty and nothing is to be set.
  pub Reads-string_field :
      (tag : ℕ) (s : Bytes) (set : Bytes → M)
      → tag < 128
      → 8 ≤ tag
      → tag % 8 ≢ 4
      → ((pre c : Cursor)
          → field (tag / 8) (tag % 8) pre c (set []) ≡ bytes_case 2 (λ bs. ok (set bs)) c)
      → Reads (string_field tag s) (set []) (set s)
  unfolding string_field
  Reads-string_field tag [] set h lo ne case = Reads-nil (set [])
  Reads-string_field tag (x ∷ s) set h lo ne case =
      rw (lt→ltb 0 (length (x ∷ s)) (omega arith))
        (Reads-bytes_field tag (x ∷ s) (λ bs. ok (set bs)) h lo ne case refl)

  -- A number, left out where it is 0.
  pub Reads-varint_field :
      (width tag v : ℕ) (set : ℕ → M)
      → v < 2 ^ width
      → v < 2 ^ 64
      → tag < 128
      → 8 ≤ tag
      → tag % 8 ≢ 4
      → ((pre c : Cursor) → field (tag / 8) (tag % 8) pre c (set 0) ≡ varint_case width 0 set c)
      → Reads (varint_field tag v) (set 0) (set v)
  unfolding varint_field
  Reads-varint_field width tag zero set hv u64 h lo ne case = Reads-nil (set 0)
  Reads-varint_field width tag (suc v) set hv u64 h lo ne case =
      rw (ne→==_false (suc v) 0 (omega arith)) (
        Reads-case tag (varint (suc v)) h lo ne λ idx rest fits.
          rw (case _ (after (idx + 1) (varint (suc v) ++ rest)))
            (varint_case-field width (suc v) set (idx + 1) rest hv u64))

  -- A length-delimited field with a number that the message does not have is passed over.
  pub Reads-unknown :
      (tag : ℕ) (s : Bytes) {m : M}
      → tag < 128
      → 8 ≤ tag
      → tag % 8 ≡ 2
      → ((pre c : Cursor) → field (tag / 8) (tag % 8) pre c m ≡ skip_unknown pre m)
      → Reads (bytes_field tag s) m m
  unfolding bytes_field
  Reads-unknown tag s {m} h lo two case =
      Reads-case tag (varint (length s) ++ s) h lo (omega arith) λ idx rest fits.
        rw
          (case (after idx (tag ∷ ((varint (length s) ++ s) ++ rest)))
            (after (idx + 1) ((varint (length s) ++ s) ++ rest)))
          (skip_unknown-field tag s idx rest m h two
            (omega (arith, length-append (varint (length s)) s)))

  -- At the end of the input the message is complete.
  unmarshal_loop-nil : (fuel idx : ℕ) (m : M) → unmarshal_loop field fuel m (after idx []) ≡ ok m
  unfolding unmarshal_loop
  unmarshal_loop-nil zero idx m = refl
  unmarshal_loop-nil (suc fuel) idx m = refl

  pub unmarshal_all-Reads :
      (bs : Bytes) {m m' : M}
      → Reads bs m m'
      → length bs < 2 ^ 63
      → unmarshal_all field m bs ≡ ok m'
  unfolding unmarshal_all
  unmarshal_all-Reads bs {m} {m'} r h =
      let (left, hl, e) = r.from (length bs) 0 [] (omega arith) (omega arith) in
      rw append-nil at e ∙ unmarshal_loop-nil left _ m'
