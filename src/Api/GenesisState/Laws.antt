-- ===== src/Api/GenesisState/Laws.antt =====
-- The reflection of GenesisState describes its fields.
use halborn.Prelude.{[], ◌≡◌, refl, ap, false, Option, some, List, ◌∷◌}
use halborn.Api.Outcome.{returns, ◌>>=◌}
use halborn.Api.Proto.{FieldDescriptor, Pointers, IsPointers}
use halborn.Api.Reflect.{Reflection, Callback, range_over}
use halborn.Api.Reflect.Laws.{
  IsReflection, copying, Copies, Copies-cons, Copies-nil, has-clear_all, unset,
}
use halborn.Api.Params.{Params}
use halborn.Api.GenesisState.{
  GenesisState, new_genesis_state, Field, fd_params, field_of, full_name, has_field, clear_field,
  reflection, range, has, clear,
}

abbrev pub fields : List Field
fields = fd_params ∷ []

module _ {Duration : Type 0} {V : Type 0} (params_pointers : Pointers V (Params Duration)) where
  pub reflection-IsReflection : IsReflection (reflection params_pointers)
  unfolding field_of
  reflection-IsReflection = record { named = named; has-clear_field = has-clear_field }
    where
      named : (f : Field) → field_of (full_name f) ≡ some f
      named fd_params = refl

      has-clear_field :
          (f : Field) (x : GenesisState Duration) → has_field f (clear_field f x) ≡ false
      has-clear_field fd_params x = refl

  pub has-clear_genesis_state :
      (fd : FieldDescriptor) (x : Option (GenesisState Duration))
      → (clear params_pointers fd x >>= λ m. has params_pointers fd (some m))
        ≡ (clear params_pointers fd x >>= λ m. returns false)
  has-clear_genesis_state = has-clear_all (reflection params_pointers) reflection-IsReflection

  pub range-over_genesis_state :
      {S : Type 0} (f : Callback V S) (x : GenesisState Duration) (s : S)
      → range params_pointers f (some x) s
        ≡ returns (range_over (reflection params_pointers) fields f x s)
  unfolding range range_over
  range-over_genesis_state f x s = refl

  pub copy_genesis_state :
      IsPointers params_pointers
      → (x : GenesisState Duration)
      → range params_pointers
          (copying (reflection params_pointers))
          (some x)
          (returns new_genesis_state)
        ≡ returns (returns (record x { unknown_fields = [] }))
  unfolding range range_over
  copy_genesis_state h_params x = ap returns (
      Copies.copied (
        Copies-cons r is_r x fd_params _ new_genesis_state
          (record new_genesis_state { params = x.params }) (rw (h_params.pointer-round x.params))
          (λ e. ap (λ s. record new_genesis_state { params = s }) (unset x.params e))
          (Copies-nil r is_r x _)))
    where
      r : Reflection V Field (GenesisState Duration)
      r = reflection params_pointers

      is_r : IsReflection r
      is_r = reflection-IsReflection
