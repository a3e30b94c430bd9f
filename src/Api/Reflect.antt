-- ===== src/Api/Reflect.antt =====
-- The reflection methods that every generated message has. The files repeat them word for word
-- round the cases of a message's own fields; the lines are those of tickets.pulsar.go.
pub mod Laws
use halborn.Prelude.{
  Bytes, Bool, true, false, not, if◌then◌else◌, Option, none, some, List, [], ◌∷◌,
}
use halborn.Api.Outcome.{
  Outcome, returns, panics, no_extensions, no_such_field, no_such_oneof, ◌>>=◌, deref,
}
use halborn.Api.Proto.{FieldDescriptor}

-- What a message of type `M` has of its own: the names of its fields `F` and the case of each field
-- in each method.
pub record Reflection (V F M : Type 0) : Type 0 where
  pub field_of : Bytes → Option F
  pub descriptor : F → FieldDescriptor
  pub has_field : F → M → Bool
  pub clear_field : F → M → M
  pub get_field : F → M → V
  pub set_field : F → V → Option M → Outcome M
  pub mutable_field : F → Option M → Outcome (V × M)
  pub new_value : F → V

-- The default case of a `switch fd.FullName()`.
unfoldable pub no_case {ℓ} : {A : Type ℓ} → FieldDescriptor → Outcome A
no_case fd = if fd.is_extension then panics no_extensions else panics no_such_field

-- `switch fd.FullName()`
unfoldable pub switch {ℓ κ} :
    {F : Type ℓ} {A : Type κ} → (Bytes → Option F) → FieldDescriptor → (F → Outcome A) → Outcome A
unfolding no_case
switch field_of fd body = elim (field_of fd.full_name) [ none ↦ no_case fd | some f ↦ body f ]

-- The receiver `x` is a pointer that may be nil; the methods that write return the message.
module _ {V F M : Type 0} (r : Reflection V F M) where
  unfoldable pub has : FieldDescriptor → Option M → Outcome Bool
  unfolding switch
  has fd x = switch r.field_of fd (λ f. do m ← deref x; returns (r.has_field f m))

  unfoldable pub clear : FieldDescriptor → Option M → Outcome M
  unfolding switch
  clear fd x = switch r.field_of fd (λ f. do m ← deref x; returns (r.clear_field f m))

  unfoldable pub get : FieldDescriptor → Option M → Outcome V
  unfolding switch
  get fd x = switch r.field_of fd (λ f. do m ← deref x; returns (r.get_field f m))

  unfoldable pub set : FieldDescriptor → V → Option M → Outcome M
  unfolding switch
  set fd v x = switch r.field_of fd (λ f. r.set_field f v x)

  unfoldable pub mutable : FieldDescriptor → Option M → Outcome (V × M)
  unfolding switch
  mutable fd x = switch r.field_of fd (λ f. r.mutable_field f x)

  unfoldable pub new_field : FieldDescriptor → Outcome V
  unfolding switch
  new_field fd = switch r.field_of fd (λ f. returns (r.new_value f))

-- No message has a oneof.
unfoldable pub which_oneof : Bytes → Outcome FieldDescriptor
which_oneof name = panics no_such_oneof

unfoldable pub is_valid {ℓ} : {M : Type ℓ} → Option M → Bool
is_valid none = false
is_valid (some m) = true

-- A callback of `Range`, as a function on the state that it keeps: whether to go on, and the state.
abbrev pub Callback : Type 0 → Type 0 → Type 0
Callback V S = S → FieldDescriptor → V → Bool × S

-- `if populated { value := …; if !f(fd, value) { return } }`, and then the rest of `Range`.
unfoldable pub visit : {V S : Type 0} → Callback V S → Bool → FieldDescriptor → V → (S → S) → S → S
visit f populated fd value rest s =
    if populated then (let (more, s') = f s fd value in if more then rest s' else s') else rest s

-- A loop over fields and their values, until the callback returns false.
abbrev pub fold_until : {V S : Type 0} → Callback V S → List (FieldDescriptor × V) → S → S
fold_until f [] s = s
fold_until f ((fd, v) ∷ rest) s =
    let (goes_on, s') = f s fd v in if goes_on then fold_until f rest s' else s'

-- The fields of `fields` that `Has` reports, each with the value that `Get` gives.
abbrev pub populated : {V F M : Type 0} → Reflection V F M → List F → M → List (FieldDescriptor × V)
populated r [] m = []
populated r (x ∷ xs) m =
    let rest = populated r xs m in
    if r.has_field x m then (r.descriptor x, r.get_field x m) ∷ rest else rest

-- What `Range` is to do, in the steps of the generated code: to visit the fields that `Has` reports, in the order of `fields`, with the
-- value that `Get` gives.
unfoldable pub range_over :
    {V F M S : Type 0} → Reflection V F M → List F → Callback V S → M → S → S
unfolding visit
range_over r [] f m s = s
range_over r (x ∷ xs) f m s =
    visit f (r.has_field x m) (r.descriptor x) (r.get_field x m) (range_over r xs f m) s
