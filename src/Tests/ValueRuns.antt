-- ===== src/Tests/ValueRuns.antt =====
-- Parameters of the API as fields and values.
use halborn.Prelude.{ℕ, suc, ◌≡◌, refl, arith, Bytes, [], ◌∷◌, Option, none, some, ◌==◌}
use halborn.Prelude.Int.{ℤ, pos}
use halborn.Api.Outcome.{Panic, returns, panics}
use halborn.Api.Proto.{Scalars, IsScalars, Pointers, IsPointers}
use halborn.Api.Reflect.{Callback, fold_until, populated}
use halborn.Api.Reflect.Laws.{copying}
use halborn.Api.TokenMeta as TokenMeta
use halborn.Api.Params as Params
use halborn.Api.Params.Laws.{fields, copy_params, range-over_params}
use halborn.Api.Params.Views.{get-unset_metas}

-- Values, where a duration is a number of nanoseconds.
data Held : Type 0 where
  text : Bytes → Held
  number : ℕ → Held
  integer : ℤ → Held
  duration : Option ℕ → Held
  meta : Option TokenMeta.TokenMeta → Held

as_text : Held → Option Bytes
as_text (text s) = some s
as_text _ = none

as_number : Held → Option ℕ
as_number (number n) = some n
as_number _ = none

as_integer : Held → Option ℤ
as_integer (integer n) = some n
as_integer _ = none

as_duration : Held → Option (Option ℕ)
as_duration (duration d) = some d
as_duration _ = none

as_meta : Held → Option (Option TokenMeta.TokenMeta)
as_meta (meta m) = some m
as_meta _ = none

abbrev scalars : Scalars Held
scalars = record {
  value_of_string = text;
  as_string = as_text;
  value_of_uint64 = number;
  value_of_uint32 = number;
  as_uint = as_number;
  value_of_int32 = integer;
  as_int = as_integer;
}

abbrev durations : Pointers Held ℕ
durations = record { new_message = 0; value_of_pointer = duration; as_pointer = as_duration }

abbrev metas : Pointers Held TokenMeta.TokenMeta
metas = record {
  new_message = TokenMeta.new_token_meta;
  value_of_pointer = meta;
  as_pointer = as_meta;
}

scalars-IsScalars : IsScalars scalars
unfolding as_text as_number as_integer
scalars-IsScalars = record {
  string-round = λ s. refl;
  uint64-round = λ n. refl;
  uint32-round = λ n. refl;
  int32-round = λ n. refl;
}

durations-IsPointers : IsPointers durations
unfolding as_duration
durations-IsPointers = record { pointer-round = λ x. refl }

metas-IsPointers : IsPointers metas
unfolding as_meta
metas-IsPointers = record { pointer-round = λ x. refl }

-- Parameters of which one message is not set.
abbrev some_params : Params.Params ℕ
some_params = record {
  redeem_dur = some 7;
  max_redeem_entries = pos 5;
  collateral_metas = none;
  hal_meta = some TokenMeta.new_token_meta;
  unknown_fields = 0x2a ∷ 1 ∷ 9 ∷ [];
}

copy_params_example :
    Params.range scalars durations metas
      (copying (Params.reflection scalars durations metas))
      (some some_params)
      (returns Params.new_params)
    ≡ returns (returns (record some_params { unknown_fields = [] }))
copy_params_example =
    copy_params scalars durations metas scalars-IsScalars durations-IsPointers metas-IsPointers
      some_params 5 refl (omega arith)

-- A callback that counts the fields and stops at the second.
abbrev two_fields : Callback Held ℕ
two_fields n fd v = (n == 0, suc n)

range-over_params_example :
    Params.range scalars durations metas two_fields (some some_params) 0
    ≡ returns (
        fold_until two_fields
          (populated (Params.reflection scalars durations metas) fields some_params)
          0)
range-over_params_example = range-over_params scalars durations metas two_fields some_params 0

get-unset_metas_example :
    (Params.get scalars durations metas
        (Params.descriptor Params.fd_collateral_metas)
        (some some_params)
      ≡ returns (meta none))
    × (e : Panic) × (TokenMeta.get scalars (TokenMeta.descriptor TokenMeta.fd_denom) none
        ≡ panics e)
get-unset_metas_example =
    get-unset_metas scalars durations metas some_params (TokenMeta.descriptor TokenMeta.fd_denom)
      refl
