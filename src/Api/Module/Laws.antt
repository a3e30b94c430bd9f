-- ===== src/Api/Module/Laws.antt =====
-- The reflection of Module describes its fields.
use halborn.Prelude.{[], ◌≡◌, refl, ap, false, Option, some, List, ◌∷◌}
use halborn.Api.Outcome.{returns, ◌>>=◌}
use halborn.Api.Proto.{FieldDescriptor, Scalars, IsScalars}
use halborn.Api.Reflect.{Reflection, Callback, range_over}
use halborn.Api.Reflect.Laws.{
  IsReflection, copying, Copies, Copies-cons, Copies-nil, has-clear_all, empty_string,
}
use halborn.Api.Module.{
  Module, new_module, Field, fd_authority, field_of, full_name, has_field, clear_field, reflection,
  range, has, clear,
}

abbrev pub fields : List Field
fields = fd_authority ∷ []

module _ {V : Type 0} (p : Scalars V) where
  pub reflection-IsReflection : IsReflection (reflection p)
  unfolding field_of
  reflection-IsReflection = record { named = named; has-clear_field = has-clear_field }
    where
      named : (f : Field) → field_of (full_name f) ≡ some f
      named fd_authority = refl

      has-clear_field : (f : Field) (x : Module) → has_field f (clear_field f x) ≡ false
      has-clear_field fd_authority x = refl

  pub has-clear_module :
      (fd : FieldDescriptor) (x : Option Module)
      → (clear p fd x >>= λ m. has p fd (some m)) ≡ (clear p fd x >>= λ m. returns false)
  has-clear_module = has-clear_all (reflection p) reflection-IsReflection

  pub range-over_module :
      {S : Type 0} (f : Callback V S) (x : Module) (s : S)
      → range p f (some x) s ≡ returns (range_over (reflection p) fields f x s)
  unfolding range range_over
  range-over_module f x s = refl

  pub copy_module :
      IsScalars p
      → (x : Module)
      → range p (copying (reflection p)) (some x) (returns new_module)
        ≡ returns (returns (record x { unknown_fields = [] }))
  unfolding range range_over
  copy_module h x = ap returns (
      Copies.copied (
        Copies-cons r is_r x fd_authority _ new_module
          (record new_module { authority = x.authority }) (rw (h.string-round x.authority))
          (λ e. ap (λ s. record new_module { authority = s }) (empty_string x.authority e))
          (Copies-nil r is_r x _)))
    where
      r : Reflection V Field Module
      r = reflection p

      is_r : IsReflection r
      is_r = reflection-IsReflection
