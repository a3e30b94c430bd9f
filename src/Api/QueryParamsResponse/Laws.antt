-- ===== src/Api/QueryParamsResponse/Laws.antt =====
-- The reflection of QueryParamsResponse describes its fields.
use halborn.Prelude.{[], ◌≡◌, refl, ap, false, Option, some, List, ◌∷◌}
use halborn.Api.Outcome.{returns, ◌>>=◌}
use halborn.Api.Proto.{FieldDescriptor, Pointers, IsPointers}
use halborn.Api.Reflect.{Reflection, Callback, range_over}
use halborn.Api.Reflect.Laws.{
  IsReflection, copying, Copies, Copies-cons, Copies-nil, has-clear_all, unset,
}
use halborn.Api.Params.{Params}
use halborn.Api.QueryParamsResponse.{
  QueryParamsResponse, new_query_params_response, Field, fd_params, field_of, full_name, has_field,
  clear_field, reflection, range, has, clear,
}

abbrev pub fields : List Field
fields = fd_params ∷ []

module _ {Duration : Type 0} {V : Type 0} (params_pointers : Pointers V (Params Duration)) where
  pub reflection-IsReflection : IsReflection (reflection params_pointers)
  unfolding field_of
  reflection-IsReflection = record { named = named; has-clear_field = has-clear_field }
    where
      named : (f : Field) → field_of (full_name f) ≡ some f
      named fd_params = refl

      has-clear_field :
          (f : Field) (x : QueryParamsResponse Duration) → has_field f (clear_field f x) ≡ false
      has-clear_field fd_params x = refl

  pub has-clear_query_params_response :
      (fd : FieldDescriptor) (x : Option (QueryParamsResponse Duration))
      → (clear params_pointers fd x >>= λ m. has params_pointers fd (some m))
        ≡ (clear params_pointers fd x >>= λ m. returns false)
  has-clear_query_params_response =
      has-clear_all (reflection params_pointers) reflection-IsReflection

  pub range-over_query_params_response :
      {S : Type 0} (f : Callback V S) (x : QueryParamsResponse Duration) (s : S)
      → range params_pointers f (some x) s
        ≡ returns (range_over (reflection params_pointers) fields f x s)
  unfolding range range_over
  range-over_query_params_response f x s = refl

  pub copy_query_params_response :
      IsPointers params_pointers
      → (x : QueryParamsResponse Duration)
      → range params_pointers
          (copying (reflection params_pointers))
          (some x)
          (returns new_query_params_response)
        ≡ returns (returns (record x { unknown_fields = [] }))
  unfolding range range_over
  copy_query_params_response h_params x = ap returns (
      Copies.copied (
        Copies-cons r is_r x fd_params _ new_query_params_response
          (record new_query_params_response { params = x.params })
          (rw (h_params.pointer-round x.params))
          (λ e. ap (λ s. record new_query_params_response { params = s }) (unset x.params e))
          (Copies-nil r is_r x _)))
    where
      r : Reflection V Field (QueryParamsResponse Duration)
      r = reflection params_pointers

      is_r : IsReflection r
      is_r = reflection-IsReflection
