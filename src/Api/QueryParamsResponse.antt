-- ===== src/Api/QueryParamsResponse.antt =====
-- The reflection of QueryParamsResponse: api/halbornctf/hal/query.pulsar.go.
pub mod Laws
pub mod Codec
pub mod RoundTrip
use halborn.Prelude.{
  ℕ, ◌%◌, ◌^◌, Bytes, [], codes, bytes_eq, ◌==◌, Bool, true, false, not, if◌then◌else◌, Option,
  none, some, List, ◌∷◌,
}
use halborn.Prelude.Int.{ℤ, pos}
use halborn.Api.Outcome.{Outcome, returns, panics, not_mutable, nil_pointer, ◌>>=◌, deref}
use halborn.Api.Proto.{
  FieldDescriptor, Scalars, Pointers, take_out, is_set, is_zero, wrap_i32, pointed,
}
use halborn.Api.Reflect as Reflect
use halborn.Api.Reflect.{Reflection, Callback, visit}
use halborn.Api.Params.{Params}

pub record QueryParamsResponse (Duration : Type 0) : Type 0 where
  pub params : Option (Params Duration)
  pub unknown_fields : Bytes

-- `Reset`, and what `New` allocates
abbrev pub new_query_params_response : {Duration : Type 0} → QueryParamsResponse Duration
new_query_params_response = record { params = none; unknown_fields = [] }

pub data Field : Type 0 where
  fd_params : Field

abbrev pub full_name : Field → Bytes
full_name fd_params = codes "halbornctf.hal.QueryParamsResponse.params"

abbrev pub descriptor : Field → FieldDescriptor
descriptor f = record { full_name = full_name f; is_extension = false }

-- The labels of the cases.
unfoldable pub field_of : Bytes → Option Field
field_of name = if bytes_eq name (full_name fd_params) then some fd_params else none

module _ {Duration : Type 0} where
  abbrev pub has_field : Field → QueryParamsResponse Duration → Bool
  has_field fd_params x = is_set x.params

  abbrev pub clear_field : Field → QueryParamsResponse Duration → QueryParamsResponse Duration
  clear_field fd_params x = record x { params = none }

  -- The getters, which take nil as well.
  abbrev pub get_params : Option (QueryParamsResponse Duration) → Option (Params Duration)
  get_params none = none
  get_params (some x) = x.params

  abbrev pub get_unknown : Option (QueryParamsResponse Duration) → Outcome Bytes
  get_unknown x = do m ← deref x; returns m.unknown_fields

  abbrev pub set_unknown :
      Option (QueryParamsResponse Duration) → Bytes → Outcome (QueryParamsResponse Duration)
  set_unknown x raw = do m ← deref x; returns (record m { unknown_fields = raw })

  module _ {V : Type 0} (params_pointers : Pointers V (Params Duration)) where
    abbrev pub get_field : Field → QueryParamsResponse Duration → V
    get_field fd_params x = params_pointers.value_of_pointer x.params

    abbrev pub set_field :
        Field → V → Option (QueryParamsResponse Duration) → Outcome (QueryParamsResponse Duration)
    set_field fd_params value x = do
      v ← take_out params_pointers.as_pointer value
      m ← deref x
      returns (record m { params = v })

    abbrev pub mutable_field :
        Field → Option (QueryParamsResponse Duration) → Outcome (V × QueryParamsResponse Duration)
    mutable_field fd_params x = do
      m ← deref x
      let a = pointed params_pointers m.params
      returns (params_pointers.value_of_pointer (some a), record m { params = some a })

    abbrev pub new_value : Field → V
    new_value fd_params = params_pointers.value_of_pointer (some params_pointers.new_message)

    abbrev pub reflection : Reflection V Field (QueryParamsResponse Duration)
    reflection = record {
      field_of = field_of;
      descriptor = descriptor;
      has_field = has_field;
      clear_field = clear_field;
      get_field = get_field;
      set_field = set_field;
      mutable_field = mutable_field;
      new_value = new_value;
    }

    abbrev pub has : FieldDescriptor → Option (QueryParamsResponse Duration) → Outcome Bool
    has fd x = Reflect.has reflection fd x

    abbrev pub clear :
        FieldDescriptor
        → Option (QueryParamsResponse Duration)
        → Outcome (QueryParamsResponse Duration)
    clear fd x = Reflect.clear reflection fd x

    abbrev pub get : FieldDescriptor → Option (QueryParamsResponse Duration) → Outcome V
    get fd x = Reflect.get reflection fd x

    abbrev pub set :
        FieldDescriptor
        → V
        → Option (QueryParamsResponse Duration)
        → Outcome (QueryParamsResponse Duration)
    set fd value x = Reflect.set reflection fd value x

    abbrev pub mutable :
        FieldDescriptor
        → Option (QueryParamsResponse Duration)
        → Outcome (V × QueryParamsResponse Duration)
    mutable fd x = Reflect.mutable reflection fd x

    abbrev pub new_field : FieldDescriptor → Outcome V
    new_field fd = Reflect.new_field reflection fd

    -- A receiver that is nil is read at once.
    unfoldable pub range :
        {S : Type 0} → Callback V S → Option (QueryParamsResponse Duration) → S → Outcome S
    unfolding visit
    range f none s = panics nil_pointer
    range f (some x) s = returns (
        visit f (is_set x.params) (descriptor fd_params) (params_pointers.value_of_pointer x.params)
          (λ t. t) s)
