-- ===== src/Api/Module.antt =====
-- The reflection of Module: api/halbornctf/hal/module/module.pulsar.go.
pub mod Laws
pub mod Codec
pub mod RoundTrip
use halborn.Prelude.{
  ℕ, ◌%◌, ◌^◌, Bytes, [], codes, bytes_eq, ◌==◌, Bool, true, false, not, if◌then◌else◌, Option,
  none, some, List, ◌∷◌,
}
use halborn.Prelude.Int.{ℤ, pos}
use halborn.Api.Outcome.{Outcome, returns, panics, not_mutable, nil_pointer, ◌>>=◌, deref}
use halborn.Api.Proto.{
  FieldDescriptor, Scalars, Pointers, take_out, is_set, is_zero, wrap_i32, pointed,
}
use halborn.Api.Reflect as Reflect
use halborn.Api.Reflect.{Reflection, Callback, visit}

pub record Module : Type 0 where
  pub authority : Bytes
  pub unknown_fields : Bytes

-- `Reset`, and what `New` allocates
abbrev pub new_module : Module
new_module = record { authority = []; unknown_fields = [] }

pub data Field : Type 0 where
  fd_authority : Field

abbrev pub full_name : Field → Bytes
full_name fd_authority = codes "halbornctf.hal.module.Module.authority"

abbrev pub descriptor : Field → FieldDescriptor
descriptor f = record { full_name = full_name f; is_extension = false }

-- The labels of the cases.
unfoldable pub field_of : Bytes → Option Field
field_of name = if bytes_eq name (full_name fd_authority) then some fd_authority else none

abbrev pub has_field : Field → Module → Bool
has_field fd_authority x = not (bytes_eq x.authority [])

abbrev pub clear_field : Field → Module → Module
clear_field fd_authority x = record x { authority = [] }

-- The getters, which take nil as well.
abbrev pub get_authority : Option Module → Bytes
get_authority none = []
get_authority (some x) = x.authority

abbrev pub get_unknown : Option Module → Outcome Bytes
get_unknown x = do m ← deref x; returns m.unknown_fields

abbrev pub set_unknown : Option Module → Bytes → Outcome Module
set_unknown x raw = do m ← deref x; returns (record m { unknown_fields = raw })

module _ {V : Type 0} (p : Scalars V) where
  abbrev pub get_field : Field → Module → V
  get_field fd_authority x = p.value_of_string x.authority

  abbrev pub set_field : Field → V → Option Module → Outcome Module
  set_field fd_authority value x = do
    v ← take_out p.as_string value
    m ← deref x
    returns (record m { authority = v })

  abbrev pub mutable_field : Field → Option Module → Outcome (V × Module)
  mutable_field fd_authority x = panics not_mutable

  abbrev pub new_value : Field → V
  new_value fd_authority = p.value_of_string []

  abbrev pub reflection : Reflection V Field Module
  reflection = record {
    field_of = field_of;
    descriptor = descriptor;
    has_field = has_field;
    clear_field = clear_field;
    get_field = get_field;
    set_field = set_field;
    mutable_field = mutable_field;
    new_value = new_value;
  }

  abbrev pub has : FieldDescriptor → Option Module → Outcome Bool
  has fd x = Reflect.has reflection fd x

  abbrev pub clear : FieldDescriptor → Option Module → Outcome Module
  clear fd x = Reflect.clear reflection fd x

  abbrev pub get : FieldDescriptor → Option Module → Outcome V
  get fd x = Reflect.get reflection fd x

  abbrev pub set : FieldDescriptor → V → Option Module → Outcome Module
  set fd value x = Reflect.set reflection fd value x

  abbrev pub mutable : FieldDescriptor → Option Module → Outcome (V × Module)
  mutable fd x = Reflect.mutable reflection fd x

  abbrev pub new_field : FieldDescriptor → Outcome V
  new_field fd = Reflect.new_field reflection fd

  -- A receiver that is nil is read at once.
  unfoldable pub range : {S : Type 0} → Callback V S → Option Module → S → Outcome S
  unfolding visit
  range f none s = panics nil_pointer
  range f (some x) s = returns (
      visit f (not (bytes_eq x.authority [])) (descriptor fd_authority)
        (p.value_of_string x.authority) (λ t. t) s)
