-- ===== src/Api/TokenMeta/Laws.antt =====
-- The reflection of TokenMeta describes its fields.
use halborn.Prelude.{◌<◌, ◌^◌, [], ◌≡◌, refl, ap, false, Option, some, List, ◌∷◌}
use native.Mathlib.Nat.{mod-eq_of_lt}
use halborn.Api.Outcome.{returns, ◌>>=◌}
use halborn.Api.Proto.{FieldDescriptor, Scalars, IsScalars}
use halborn.Api.Reflect.{Reflection, Callback, range_over}
use halborn.Api.Reflect.Laws.{
  IsReflection, copying, Copies, Copies-cons, Copies-nil, has-clear_all, empty_string, zero_number,
}
use halborn.Api.TokenMeta.{
  TokenMeta, new_token_meta, Field, fd_denom, fd_decimals, fd_description, field_of, full_name,
  has_field, clear_field, reflection, range, has, clear,
}

abbrev pub fields : List Field
fields = fd_denom ∷ fd_decimals ∷ fd_description ∷ []

module _ {V : Type 0} (p : Scalars V) where
  pub reflection-IsReflection : IsReflection (reflection p)
  unfolding field_of
  reflection-IsReflection = record { named = named; has-clear_field = has-clear_field }
    where
      named : (f : Field) → field_of (full_name f) ≡ some f
      named fd_denom = refl
      named fd_decimals = refl
      named fd_description = refl

      has-clear_field : (f : Field) (x : TokenMeta) → has_field f (clear_field f x) ≡ false
      has-clear_field fd_denom x = refl
      has-clear_field fd_decimals x = refl
      has-clear_field fd_description x = refl

  pub has-clear_token_meta :
      (fd : FieldDescriptor) (x : Option TokenMeta)
      → (clear p fd x >>= λ m. has p fd (some m)) ≡ (clear p fd x >>= λ m. returns false)
  has-clear_token_meta = has-clear_all (reflection p) reflection-IsReflection

  pub range-over_token_meta :
      {S : Type 0} (f : Callback V S) (x : TokenMeta) (s : S)
      → range p f (some x) s ≡ returns (range_over (reflection p) fields f x s)
  unfolding range range_over
  range-over_token_meta f x s = refl

  pub copy_token_meta :
      IsScalars p
      → (x : TokenMeta) → x.decimals < 2 ^ 32
      → range p (copying (reflection p)) (some x) (returns new_token_meta)
        ≡ returns (returns (record x { unknown_fields = [] }))
  unfolding range range_over
  copy_token_meta h x small_decimals = ap returns (
      Copies.copied (
        Copies-cons r is_r x fd_denom _ new_token_meta (record new_token_meta { denom = x.denom })
          (rw (h.string-round x.denom))
          (λ e. ap (λ s. record new_token_meta { denom = s }) (empty_string x.denom e))
          (Copies-cons r is_r x fd_decimals _ _
            (record new_token_meta { denom = x.denom; decimals = x.decimals })
            (rw (h.uint32-round x.decimals, mod-eq_of_lt small_decimals))
            (λ e.
              ap (λ s. record new_token_meta { denom = x.denom; decimals = s })
                (zero_number x.decimals e))
            (Copies-cons r is_r x fd_description _ _
              (record new_token_meta {
                denom = x.denom;
                decimals = x.decimals;
                description = x.description;
              })
              (rw (h.string-round x.description))
              (λ e.
                ap
                  (λ s. record new_token_meta {
                    denom = x.denom;
                    decimals = x.decimals;
                    description = s;
                  })
                  (empty_string x.description e))
              (Copies-nil r is_r x _)))))
    where
      r : Reflection V Field TokenMeta
      r = reflection p

      is_r : IsReflection r
      is_r = reflection-IsReflection
