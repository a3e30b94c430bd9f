-- ===== src/Api/TokenMeta.antt =====
-- The reflection of TokenMeta: api/halbornctf/hal/params.pulsar.go.
pub mod Laws
pub mod Codec
pub mod RoundTrip
pub mod Interop
use halborn.Prelude.{
  ℕ, ◌%◌, ◌^◌, Bytes, [], codes, bytes_eq, ◌==◌, Bool, true, false, not, if◌then◌else◌, Option,
  none, some, List, ◌∷◌,
}
use halborn.Prelude.Int.{ℤ, pos}
use halborn.Api.Outcome.{Outcome, returns, panics, not_mutable, nil_pointer, ◌>>=◌, deref}
use halborn.Api.Proto.{
  FieldDescriptor, Scalars, Pointers, take_out, is_set, is_zero, wrap_i32, pointed,
}
use halborn.Api.Reflect as Reflect
use halborn.Api.Reflect.{Reflection, Callback, visit}

pub record TokenMeta : Type 0 where
  pub denom : Bytes
  pub decimals : ℕ
  pub description : Bytes
  pub unknown_fields : Bytes

-- `Reset`, and what `New` allocates
abbrev pub new_token_meta : TokenMeta
new_token_meta = record { denom = []; decimals = 0; description = []; unknown_fields = [] }

pub data Field : Type 0 where
  fd_denom fd_decimals fd_description : Field

abbrev pub full_name : Field → Bytes
full_name fd_denom = codes "halbornctf.hal.TokenMeta.denom"
full_name fd_decimals = codes "halbornctf.hal.TokenMeta.decimals"
full_name fd_description = codes "halbornctf.hal.TokenMeta.description"

abbrev pub descriptor : Field → FieldDescriptor
descriptor f = record { full_name = full_name f; is_extension = false }

-- The labels of the cases.
unfoldable pub field_of : Bytes → Option Field
field_of name =
    if bytes_eq name (full_name fd_denom)
    then some fd_denom
    else (if bytes_eq name (full_name fd_decimals)
        then some fd_decimals
        else (if bytes_eq name (full_name fd_description) then some fd_description else none))

abbrev pub has_field : Field → TokenMeta → Bool
has_field fd_denom x = not (bytes_eq x.denom [])
has_field fd_decimals x = not (x.decimals == 0)
has_field fd_description x = not (bytes_eq x.description [])

abbrev pub clear_field : Field → TokenMeta → TokenMeta
clear_field fd_denom x = record x { denom = [] }
clear_field fd_decimals x = record x { decimals = 0 }
clear_field fd_description x = record x { description = [] }

-- The getters, which take nil as well.
abbrev pub get_denom : Option TokenMeta → Bytes
get_denom none = []
get_denom (some x) = x.denom

abbrev pub get_decimals : Option TokenMeta → ℕ
get_decimals none = 0
get_decimals (some x) = x.decimals

abbrev pub get_description : Option TokenMeta → Bytes
get_description none = []
get_description (some x) = x.description

abbrev pub get_unknown : Option TokenMeta → Outcome Bytes
get_unknown x = do m ← deref x; returns m.unknown_fields

abbrev pub set_unknown : Option TokenMeta → Bytes → Outcome TokenMeta
set_unknown x raw = do m ← deref x; returns (record m { unknown_fields = raw })

module _ {V : Type 0} (p : Scalars V) where
  abbrev pub get_field : Field → TokenMeta → V
  get_field fd_denom x = p.value_of_string x.denom
  get_field fd_decimals x = p.value_of_uint32 x.decimals
  get_field fd_description x = p.value_of_string x.description

  abbrev pub set_field : Field → V → Option TokenMeta → Outcome TokenMeta
  set_field fd_denom value x = do
    v ← take_out p.as_string value
    m ← deref x
    returns (record m { denom = v })
  set_field fd_decimals value x = do
    v ← take_out p.as_uint value
    m ← deref x
    returns (record m { decimals = v % 2 ^ 32 })
  set_field fd_description value x = do
    v ← take_out p.as_string value
    m ← deref x
    returns (record m { description = v })

  abbrev pub mutable_field : Field → Option TokenMeta → Outcome (V × TokenMeta)
  mutable_field fd_denom x = panics not_mutable
  mutable_field fd_decimals x = panics not_mutable
  mutable_field fd_description x = panics not_mutable

  abbrev pub new_value : Field → V
  new_value fd_denom = p.value_of_string []
  new_value fd_decimals = p.value_of_uint32 0
  new_value fd_description = p.value_of_string []

  abbrev pub reflection : Reflection V Field TokenMeta
  reflection = record {
    field_of = field_of;
    descriptor = descriptor;
    has_field = has_field;
    clear_field = clear_field;
    get_field = get_field;
    set_field = set_field;
    mutable_field = mutable_field;
    new_value = new_value;
  }

  abbrev pub has : FieldDescriptor → Option TokenMeta → Outcome Bool
  has fd x = Reflect.has reflection fd x

  abbrev pub clear : FieldDescriptor → Option TokenMeta → Outcome TokenMeta
  clear fd x = Reflect.clear reflection fd x

  abbrev pub get : FieldDescriptor → Option TokenMeta → Outcome V
  get fd x = Reflect.get reflection fd x

  abbrev pub set : FieldDescriptor → V → Option TokenMeta → Outcome TokenMeta
  set fd value x = Reflect.set reflection fd value x

  abbrev pub mutable : FieldDescriptor → Option TokenMeta → Outcome (V × TokenMeta)
  mutable fd x = Reflect.mutable reflection fd x

  abbrev pub new_field : FieldDescriptor → Outcome V
  new_field fd = Reflect.new_field reflection fd

  -- A receiver that is nil is read at once.
  unfoldable pub range : {S : Type 0} → Callback V S → Option TokenMeta → S → Outcome S
  unfolding visit
  range f none s = panics nil_pointer
  range f (some x) s = returns (
      visit f (not (bytes_eq x.denom [])) (descriptor fd_denom) (p.value_of_string x.denom)
        (visit f (not (x.decimals == 0)) (descriptor fd_decimals) (p.value_of_uint32 x.decimals) (
          visit f (not (bytes_eq x.description [])) (descriptor fd_description)
            (p.value_of_string x.description) (λ t. t)))
        s)
