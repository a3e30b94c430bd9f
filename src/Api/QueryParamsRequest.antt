-- ===== src/Api/QueryParamsRequest.antt =====
-- The reflection of QueryParamsRequest, which has no fields: api/halbornctf/hal/query.pulsar.go.
pub mod Codec
use halborn.Prelude.{Bytes, [], Bool, Option, none, some}
use halborn.Api.Outcome.{Outcome, returns, ◌>>=◌, deref}
use halborn.Api.Proto.{FieldDescriptor}
use halborn.Api.Reflect as Reflect
use halborn.Api.Reflect.{Reflection, Callback}

pub record QueryParamsRequest : Type 0 where
  pub unknown_fields : Bytes

-- `Reset`, and what `New` allocates
abbrev pub new_query_params_request : QueryParamsRequest
new_query_params_request = record { unknown_fields = [] }

-- There is no case but the default.
unfoldable pub field_of : Bytes → Option ⊥
field_of name = none

abbrev pub get_unknown : Option QueryParamsRequest → Outcome Bytes
get_unknown x = do m ← deref x; returns m.unknown_fields

abbrev pub set_unknown : Option QueryParamsRequest → Bytes → Outcome QueryParamsRequest
set_unknown x raw = do m ← deref x; returns (record m { unknown_fields = raw })

module _ {V : Type 0} where
  abbrev pub reflection : Reflection V ⊥ QueryParamsRequest
  reflection = record {
    field_of = field_of;
    descriptor = λ f. elim f [ ];
    has_field = λ f x. elim f [ ];
    clear_field = λ f x. elim f [ ];
    get_field = λ f x. elim f [ ];
    set_field = λ f v x. elim f [ ];
    mutable_field = λ f x. elim f [ ];
    new_value = λ f. elim f [ ];
  }

  abbrev pub get : FieldDescriptor → Option QueryParamsRequest → Outcome V
  get fd x = Reflect.get reflection fd x

  abbrev pub set : FieldDescriptor → V → Option QueryParamsRequest → Outcome QueryParamsRequest
  set fd value x = Reflect.set reflection fd value x

  abbrev pub mutable :
      FieldDescriptor → Option QueryParamsRequest → Outcome (V × QueryParamsRequest)
  mutable fd x = Reflect.mutable reflection fd x

  abbrev pub new_field : FieldDescriptor → Outcome V
  new_field fd = Reflect.new_field (reflection) fd

  -- Nothing is visited, and nothing is read of the receiver.
  abbrev pub range : {S : Type 0} → Callback V S → Option QueryParamsRequest → S → Outcome S
  range f x s = returns s

-- These two make no value.
abbrev pub has : FieldDescriptor → Option QueryParamsRequest → Outcome Bool
has fd x = Reflect.has (reflection {V = Bytes}) fd x

abbrev pub clear : FieldDescriptor → Option QueryParamsRequest → Outcome QueryParamsRequest
clear fd x = Reflect.clear (reflection {V = Bytes}) fd x
