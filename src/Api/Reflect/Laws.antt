-- ===== src/Api/Reflect/Laws.antt =====
-- What holds of the reflection of every message, from what holds of its fields.
use halborn.Prelude.{
  ℕ, Bytes, [], ◌∷◌, bytes_eq, ◌==◌, ◌≡◌, refl, ap, ◌∙◌, arith, Bool, true, false, if◌then◌else◌,
  not, Bool-cases, Option-cases, inl, inr, Option, none, some, List,
}
use halborn.Prelude.Int.{ℤ, pos, negsuc}
use halborn.Api.Outcome.{
  Outcome, Panic, returns, panics, nil_pointer, no_extensions, no_such_field, ◌>>=◌,
}
use halborn.Api.Proto.{FieldDescriptor, is_set, is_zero}
use halborn.Api.Reflect.{
  Reflection, switch, no_case, has, clear, get, set, Callback, visit, range_over, fold_until,
  populated,
}

-- The cases of the methods fit together.
pub record IsReflection {V F M : Type 0} (r : Reflection V F M) : Type 0 where
  pub named : (f : F) → r.field_of (r.descriptor f).full_name ≡ some f
  pub has-clear_field : (f : F) (m : M) → r.has_field f (r.clear_field f m) ≡ false

module _ {V F M : Type 0} (r : Reflection V F M) (h : IsReflection r) where
  -- Whatever the descriptor and the receiver: where `Clear` returns, `Has` then returns false.
  pub has-clear_all :
      (fd : FieldDescriptor) (x : Option M)
      → (clear r fd x >>= λ m. has r fd (some m)) ≡ (clear r fd x >>= λ m. returns false)
  unfolding clear has switch no_case
  has-clear_all fd x = elim (Option-cases (r.field_of fd.full_name)) [
    | inl unknown ↦ ground arith
    | inr (f, known) ↦ elim (Option-cases x) [
      | inl nil ↦ rw (clear, switch, known, nil)
      | inr (m, there) ↦ rw (clear, has, switch, known, there, h.has-clear_field f m)
    ]
  ]

-- On nil, `Get` panics whatever it is asked for.
pub get-nil :
    {V F M : Type 0} (r : Reflection V F M) (fd : FieldDescriptor)
    → (e : Panic) × (get r fd none ≡ panics e)
unfolding get switch no_case
get-nil r fd = elim (Option-cases (r.field_of fd.full_name)) [
  | inr (f, known) ↦ (nil_pointer, rw (get, switch, known))
  | inl unknown ↦ elim (Bool-cases fd.is_extension) [
    | inl extension ↦ (no_extensions, rw (get, switch, unknown, extension))
    | inr other ↦ (no_such_field, rw (get, switch, unknown, other))
  ]
]

visit-fold_until :
    {V S : Type 0} (f : Callback V S) (b : Bool) (fd : FieldDescriptor) (v : V)
    (rest : List (FieldDescriptor × V)) (s : S)
    → visit f b fd v (fold_until f rest) s ≡ fold_until f (if b then (fd, v) ∷ rest else rest) s
unfolding visit
visit-fold_until f false fd v rest s = refl
visit-fold_until f true fd v rest s = refl

-- The steps of `Range` are a loop over the populated fields that stops when the callback says so.
pub range_over-populated :
    {V F M S : Type 0} (r : Reflection V F M) (fs : List F) (f : Callback V S) (m : M) (s : S)
    → range_over r fs f m s ≡ fold_until f (populated r fs m) s
unfolding range_over
range_over-populated r [] f m s = refl
range_over-populated r (x ∷ fs) f m s =
    ap (λ k. visit f (r.has_field x m) (r.descriptor x) (r.get_field x m) k s)
      (λ i s'. range_over-populated r fs f m s' i)
    ∙ visit-fold_until f (r.has_field x m) (r.descriptor x) (r.get_field x m) (populated r fs m) s

-- The callback of a copy: each field that is visited is set in the message that is built.
abbrev pub copying : {V F M : Type 0} → Reflection V F M → Callback V (Outcome M)
copying r s fd v = (true, s >>= λ m. set r fd v (some m))

-- Such a copy of the fields `fs` of `x` turns `m` into `m'`.
pub record Copies {V F M : Type 0} (r : Reflection V F M) (x : M) (fs : List F) (m m' : M)
    : Type 0 where
  pub copied : range_over r fs (copying r) x (returns m) ≡ returns m'

module _ {V F M : Type 0} (r : Reflection V F M) (h : IsReflection r) (x : M) where
  pub Copies-nil : (m : M) → Copies r x [] m m
  unfolding range_over
  Copies-nil m = record { copied = refl }

  -- A field is copied, or left out where there is nothing to copy.
  pub Copies-cons :
      (f : F) (fs : List F) (m m' : M) {m'' : M}
      → r.set_field f (r.get_field f x) (some m) ≡ returns m'
      → (r.has_field f x ≡ false → m ≡ m')
      → Copies r x fs m' m''
      → Copies r x (f ∷ fs) m m''
  unfolding range_over visit set
  Copies-cons f fs m m' e same rest = elim (Bool-cases (r.has_field f x)) [
    | inl there ↦ record {
      copied = rw (range_over, visit, there, set, switch, h.named f, e) rest.copied;
    }
    | inr nothing ↦ record { copied = rw (range_over, visit, nothing, same nothing) rest.copied }
  ]

-- Fields that hold the zero value of their kind.
pub empty_string : (s : Bytes) → not (bytes_eq s []) ≡ false → [] ≡ s
empty_string [] h = refl
empty_string (x ∷ s) h = cc

pub zero_number : (n : ℕ) → not (n == 0) ≡ false → 0 ≡ n
zero_number n h = ground arith

pub zero_int : (v : ℤ) → not (is_zero v) ≡ false → pos 0 ≡ v
zero_int (pos n) h = ap pos (zero_number n h)
zero_int (negsuc n) h = cc

pub unset {ℓ} : {A : Type ℓ} (x : Option A) → is_set x ≡ false → none ≡ x
unset none h = refl
unset (some a) h = cc
