-- ===== src/Wire/Ends.antt =====
-- The loops of `Unmarshal` and `skip` end on every input: the fuel of the model is never used up.
pub mod Messages
use halborn.Prelude.{
  ℕ, zero, suc, ◌+◌, ◌%◌, ◌/◌, ◌*◌, ◌^◌, ◌≤◌, ◌<◌, ◌≡◌, ◌≢◌, refl, arith, Bytes, [], ◌∷◌, length,
  drop, take, Bool, true, false, not, ltb, leb, ◌==◌, ◌||◌, if◌then◌else◌, Option, none, some,
  Bool-cases, inl, inr,
}
use Prim.Native.Nat.{bit_or}
use halborn.Wire.Result.{
  Result, WireError, ok, err, stuck, ◌>>=◌, ◌>>◌, fail_if, unexpected_end_of_group, invalid_length,
  unexpected_eof, wrong_wire_type, illegal_wire_type,
}
use halborn.Wire.VarintRead.{after}
use halborn.Wire.Reader.{
  Cursor, start, advance, is_empty, read_loop, read_varint, read_bytes, end_of_group, skip_field,
  skip_loop, skip, skip_unknown, bytes_case, varint_case, nested_or, unmarshal_loop, unmarshal_all,
}

-- The result is an error, or a value of which `P` holds.
pub data Ends {ℓ κ} {A : Type ℓ} (P : A → Type κ) : Result A → Type (ℓ ⊔ κ) where
  returned : (a : A) → P a → Ends P (ok a)
  failed : (e : WireError) → Ends P (err e)

pub Ends-bind {ℓ κ μ ν} :
    {A : Type ℓ} {P : A → Type κ} {B : Type μ} {Q : B → Type ν} {r : Result A} {f : A → Result B}
    → Ends P r
    → ((a : A) → P a → Ends Q (f a))
    → Ends Q (r >>= f)
Ends-bind (returned a p) k = k a p
Ends-bind (failed e) k = failed e

pub Ends-then {ℓ κ} :
    {B : Type ℓ} {Q : B → Type κ} (test : Bool) (e : WireError) {r : Result B}
    → Ends Q r
    → Ends Q (fail_if test e >> r)
Ends-then true e h = failed e
Ends-then false e h = h

pub Ends-if {ℓ κ} :
    {A : Type ℓ} {P : A → Type κ} (test : Bool) {r s : Result A}
    → Ends P r
    → Ends P s
    → Ends P (if test then r else s)
Ends-if true h k = h
Ends-if false h k = k

pub Ends-map {ℓ κ μ} :
    {A : Type ℓ} {P : A → Type κ} {Q : A → Type μ} {r : Result A}
    → ((a : A) → P a → Q a)
    → Ends P r
    → Ends Q r
Ends-map f (returned a p) = returned a (f a p)
Ends-map f (failed e) = failed e

pub Ends-not_stuck {ℓ κ} : {A : Type ℓ} {P : A → Type κ} {r : Result A} → Ends P r → r ≢ stuck
Ends-not_stuck (returned a p) e = cc
Ends-not_stuck (failed e') e = cc

-- What is left to read is shorter than `n`, and the position has moved on.
pub record Moves (n idx : ℕ) (c : Cursor) : Type 0 where
  pub shorter : length c.rest < n
  pub further : idx < c.idx

length-drop : (n : ℕ) (bs : Bytes) → length (drop n bs) ≤ length bs
length-drop zero bs = omega arith
length-drop (suc n) [] = omega arith
length-drop (suc n) (b ∷ bs) = omega (arith, length-drop n bs)

advance-Moves : (k n idx : ℕ) (c : Cursor) → Moves n idx c → Moves n idx (advance k c)
advance-Moves k n idx c h = record {
  shorter = omega (arith, length-drop k c.rest, h.shorter);
  further = omega (arith, h.further);
}

-- A varint takes a byte at least.
read_loop-Ends :
    (width : ℕ) (bs : Bytes) (idx acc shift : ℕ)
    → Ends (λ p. Moves (length bs) idx p.1) (read_loop width bs idx acc shift)
unfolding read_loop
read_loop-Ends width [] idx acc shift = Ends-if (leb 64 shift) (failed _) (failed _)
read_loop-Ends width (b ∷ bs) idx acc shift = Ends-if (leb 64 shift) (failed _) (
    Ends-if (ltb b 128) (returned _ (record { shorter = omega arith; further = omega arith }))
      (weaker (read_loop-Ends width bs (idx + 1) _ (shift + 7))))
  where
    weaker :
        {r : Result (ℕ × Cursor)}
        → Ends (λ p. Moves (length bs) (idx + 1) p.1) r
        → Ends (λ p. Moves (suc (length bs)) idx p.1) r
    weaker (returned a h) =
        returned a
          (record { shorter = omega (arith, h.shorter); further = omega (arith, h.further) })
    weaker (failed e) = failed e

pub read_varint-Ends :
    (width : ℕ) (c : Cursor) → Ends (λ p. Moves (length c.rest) c.idx p.1) (read_varint width c)
unfolding read_varint
read_varint-Ends width c = read_loop-Ends width c.rest c.idx 0 0

Moves-trans :
    {n idx : ℕ} {c c' : Cursor} → Moves n idx c → Moves (length c.rest) c.idx c' → Moves n idx c'
Moves-trans h k = record {
  shorter = omega (arith, h.shorter, k.shorter);
  further = omega (arith, h.further, k.further);
}

-- From where a tag ended: `c` has moved on already.
module _ {n idx : ℕ} (c : Cursor) (h : Moves n idx c) where
  read_bytes-Ends : Ends (λ p. Moves n idx p.1) (read_bytes c)
  unfolding read_bytes
  read_bytes-Ends = Ends-bind (read_varint-Ends 64 c) λ p k.
      Ends-then (leb (2 ^ 63) p.0) invalid_length (
        Ends-then (leb (2 ^ 63) (p.1.idx + p.0)) invalid_length (
          Ends-then (ltb (length p.1.rest) p.0) unexpected_eof (
            returned (take p.0 p.1.rest, advance p.0 p.1)
              (advance-Moves p.0 n idx p.1 (Moves-trans h k)))))

  pub bytes_case-Ends {ℓ} :
      {M : Type ℓ} (wire_type : ℕ) (read : Bytes → Result M)
      → ((s : Bytes) → Ends (λ m. Unit {0}) (read s))
      → Ends (λ p. Moves n idx p.1) (bytes_case wire_type read c)
  unfolding bytes_case
  bytes_case-Ends wire_type read reads =
      Ends-then (not (wire_type == 2)) wrong_wire_type
        (Ends-bind read_bytes-Ends λ p k. Ends-bind (reads p.0) λ m _. returned (m, p.1) k)

  pub varint_case-Ends {ℓ} :
      {M : Type ℓ} (width wire_type : ℕ) (set : ℕ → M)
      → Ends (λ p. Moves n idx p.1) (varint_case width wire_type set c)
  unfolding varint_case
  varint_case-Ends width wire_type set =
      Ends-then (not (wire_type == 0)) wrong_wire_type
        (Ends-bind (read_varint-Ends width c) λ p k. returned (set p.0, p.1) (Moves-trans h k))

  end_of_group-Ends : (depth : ℕ) → Ends (λ p. Moves n idx p.0) (end_of_group c depth)
  unfolding end_of_group
  end_of_group-Ends zero = failed unexpected_end_of_group
  end_of_group-Ends (suc depth) = returned (c, depth) h

  skip_field-Ends :
      (wire_type depth : ℕ) → Ends (λ p. Moves n idx p.0) (skip_field wire_type c depth)
  unfolding skip_field
  skip_field-Ends wire_type depth =
      Ends-if (wire_type == 0)
        (Ends-bind (read_varint-Ends 64 c) λ p k. returned (p.1, depth) (Moves-trans h k))
        (Ends-if (wire_type == 1) (returned (advance 8 c, depth) (advance-Moves 8 n idx c h)) (
          Ends-if (wire_type == 2)
            (Ends-bind (read_varint-Ends 64 c) λ p k.
              Ends-then (leb (2 ^ 63) p.0) invalid_length
                (returned (advance p.0 p.1, depth) (advance-Moves p.0 n idx p.1 (Moves-trans h k))))
            (Ends-if (wire_type == 3) (returned (c, depth + 1) h) (
              Ends-if (wire_type == 4) (end_of_group-Ends depth) (
                Ends-if (wire_type == 5) (returned (advance 4 c, depth) (advance-Moves 4 n idx c h))
                  (failed illegal_wire_type))))))

-- A field that `skip` measures is not empty.
skip_loop-Ends :
    (fuel idx : ℕ) (rest : Bytes) (depth : ℕ)
    → length rest ≤ fuel
    → Ends (λ n. idx < n) (skip_loop fuel (after idx rest) depth)
unfolding skip_loop
skip_loop-Ends zero idx [] depth h = failed unexpected_eof
skip_loop-Ends zero idx (b ∷ bs) depth h = absurd (omega arith)
skip_loop-Ends (suc fuel) idx [] depth h = failed unexpected_eof
skip_loop-Ends (suc fuel) idx (b ∷ bs) depth h =
    Ends-bind (read_varint-Ends 64 (after idx (b ∷ bs))) λ p k.
      Ends-bind (skip_field-Ends p.1 k (p.0 % 8) depth) λ q l.
        Ends-then (leb (2 ^ 63) q.0.idx) invalid_length (
          Ends-if (q.1 == 0) (returned q.0.idx l.further)
            (onwards q.0 l (skip_loop-Ends fuel q.0.idx q.0.rest q.1 (omega (arith, l.shorter)))))
  where
    onwards :
        (c : Cursor) {r : Result ℕ}
        → Moves (suc (length bs)) idx c
        → Ends (λ n. c.idx < n) r
        → Ends (λ n. idx < n) r
    onwards c l (returned n more) = returned n (omega (arith, l.further))
    onwards c l (failed e) = failed e

pub skip_unknown-Ends {ℓ} :
    {M : Type ℓ} (idx b : ℕ) (bs : Bytes) (m : M)
    → Ends (λ p. length p.1.rest < length (b ∷ bs)) (skip_unknown (after idx (b ∷ bs)) m)
unfolding skip_unknown skip
skip_unknown-Ends idx b bs m =
    Ends-bind (skip_loop-Ends (length (b ∷ bs)) 0 (b ∷ bs) 0 (omega arith)) λ n some_bytes.
      Ends-then (leb (2 ^ 63) n || leb (2 ^ 63) (idx + n)) invalid_length (
        Ends-then (ltb (length (b ∷ bs)) n) unexpected_eof
          (returned (m, advance n (after idx (b ∷ bs))) (dropped n some_bytes)))
  where
    dropped : (n : ℕ) → 0 < n → length (drop n (b ∷ bs)) < length (b ∷ bs)
    dropped zero h = absurd (omega arith)
    dropped (suc n) h = omega (arith, length-drop n bs)
