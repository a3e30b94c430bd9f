-- ===== src/Api/MsgUpdateParams/Laws.antt =====
-- The reflection of MsgUpdateParams describes its fields.
use halborn.Prelude.{[], ◌≡◌, refl, ap, false, Option, some, List, ◌∷◌}
use halborn.Api.Outcome.{returns, ◌>>=◌}
use halborn.Api.Proto.{FieldDescriptor, Scalars, Pointers, IsScalars, IsPointers}
use halborn.Api.Reflect.{Reflection, Callback, range_over}
use halborn.Api.Reflect.Laws.{
  IsReflection, copying, Copies, Copies-cons, Copies-nil, has-clear_all, empty_string, unset,
}
use halborn.Api.Params.{Params}
use halborn.Api.MsgUpdateParams.{
  MsgUpdateParams, new_msg_update_params, Field, fd_authority, fd_params, field_of, full_name,
  has_field, clear_field, reflection, range, has, clear,
}

abbrev pub fields : List Field
fields = fd_authority ∷ fd_params ∷ []

module _ {Duration : Type 0} {V : Type 0} (p : Scalars V)
    (params_pointers : Pointers V (Params Duration)) where
  pub reflection-IsReflection : IsReflection (reflection p params_pointers)
  unfolding field_of
  reflection-IsReflection = record { named = named; has-clear_field = has-clear_field }
    where
      named : (f : Field) → field_of (full_name f) ≡ some f
      named fd_authority = refl
      named fd_params = refl

      has-clear_field :
          (f : Field) (x : MsgUpdateParams Duration) → has_field f (clear_field f x) ≡ false
      has-clear_field fd_authority x = refl
      has-clear_field fd_params x = refl

  pub has-clear_msg_update_params :
      (fd : FieldDescriptor) (x : Option (MsgUpdateParams Duration))
      → (clear p params_pointers fd x >>= λ m. has p params_pointers fd (some m))
        ≡ (clear p params_pointers fd x >>= λ m. returns false)
  has-clear_msg_update_params = has-clear_all (reflection p params_pointers) reflection-IsReflection

  pub range-over_msg_update_params :
      {S : Type 0} (f : Callback V S) (x : MsgUpdateParams Duration) (s : S)
      → range p params_pointers f (some x) s
        ≡ returns (range_over (reflection p params_pointers) fields f x s)
  unfolding range range_over
  range-over_msg_update_params f x s = refl

  pub copy_msg_update_params :
      IsScalars p
      → IsPointers params_pointers
      → (x : MsgUpdateParams Duration)
      → range p params_pointers
          (copying (reflection p params_pointers))
          (some x)
          (returns new_msg_update_params)
        ≡ returns (returns (record x { unknown_fields = [] }))
  unfolding range range_over
  copy_msg_update_params h h_params x = ap returns (
      Copies.copied (
        Copies-cons r is_r x fd_authority _ new_msg_update_params
          (record new_msg_update_params { authority = x.authority })
          (rw (h.string-round x.authority))
          (λ e.
            ap (λ s. record new_msg_update_params { authority = s }) (empty_string x.authority e))
          (Copies-cons r is_r x fd_params _ _
            (record new_msg_update_params { authority = x.authority; params = x.params })
            (rw (h_params.pointer-round x.params))
            (λ e.
              ap (λ s. record new_msg_update_params { authority = x.authority; params = s })
                (unset x.params e))
            (Copies-nil r is_r x _))))
    where
      r : Reflection V Field (MsgUpdateParams Duration)
      r = reflection p params_pointers

      is_r : IsReflection r
      is_r = reflection-IsReflection
