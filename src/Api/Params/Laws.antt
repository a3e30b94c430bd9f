-- ===== src/Api/Params/Laws.antt =====
-- The reflection of Params describes its fields.
use halborn.Prelude.{ℕ, ◌<◌, ◌^◌, [], ◌≡◌, refl, ap, false, Option, some, List, ◌∷◌}
use halborn.Prelude.Int.{pos}
use halborn.Api.Outcome.{returns, ◌>>=◌}
use halborn.Api.Proto.{FieldDescriptor, Scalars, Pointers, IsScalars, IsPointers, wrap_i32-pos}
use halborn.Api.Reflect.{Reflection, Callback, range_over, fold_until, populated}
use halborn.Api.Reflect.Laws.{
  IsReflection, copying, Copies, Copies-cons, Copies-nil, has-clear_all, zero_int, unset,
  range_over-populated,
}
use halborn.Api.TokenMeta.{TokenMeta}
use halborn.Api.Params.{
  Params, new_params, Field, fd_redeem_dur, fd_max_redeem_entries, fd_collateral_metas, fd_hal_meta,
  field_of, full_name, has_field, clear_field, reflection, range, has, clear,
}

abbrev pub fields : List Field
fields = fd_redeem_dur ∷ fd_max_redeem_entries ∷ fd_collateral_metas ∷ fd_hal_meta ∷ []

module _ {Duration : Type 0} {V : Type 0} (p : Scalars V) (duration_pointers : Pointers V Duration)
    (token_meta_pointers : Pointers V TokenMeta) where
  pub reflection-IsReflection : IsReflection (reflection p duration_pointers token_meta_pointers)
  unfolding field_of
  reflection-IsReflection = record { named = named; has-clear_field = has-clear_field }
    where
      named : (f : Field) → field_of (full_name f) ≡ some f
      named fd_redeem_dur = refl
      named fd_max_redeem_entries = refl
      named fd_collateral_metas = refl
      named fd_hal_meta = refl

      has-clear_field : (f : Field) (x : Params Duration) → has_field f (clear_field f x) ≡ false
      has-clear_field fd_redeem_dur x = refl
      has-clear_field fd_max_redeem_entries x = refl
      has-clear_field fd_collateral_metas x = refl
      has-clear_field fd_hal_meta x = refl

  pub has-clear_params :
      (fd : FieldDescriptor) (x : Option (Params Duration))
      → (clear p duration_pointers token_meta_pointers fd x >>= λ m.
          has p duration_pointers token_meta_pointers fd (some m))
        ≡ (clear p duration_pointers token_meta_pointers fd x >>= λ m. returns false)
  has-clear_params =
      has-clear_all (reflection p duration_pointers token_meta_pointers) reflection-IsReflection

  -- Range on Params calls the callback as a loop over a list does: over those of the four fields,
  -- in the order of their numbers, that Has reports, each with its descriptor and the value that
  -- Get gives, up to and with the first call that returns false.
  pub range-over_params :
      {S : Type 0} (f : Callback V S) (x : Params Duration) (s : S)
      → range p duration_pointers token_meta_pointers f (some x) s
        ≡ returns (
            fold_until f
              (populated (reflection p duration_pointers token_meta_pointers) fields x)
              s)
  unfolding range range_over
  range-over_params f x s =
      ap returns
        (range_over-populated (reflection p duration_pointers token_meta_pointers) fields f x s)

  -- Setting, in a new Params, each field that Range visits gives a copy without the unknown
  -- fields, where the number of entries is an int32 that is not negative and values give back what
  -- they were made from.
  pub copy_params :
      IsScalars p
      → IsPointers duration_pointers
      → IsPointers token_meta_pointers
      → (x : Params Duration) (n : ℕ) → x.max_redeem_entries ≡ pos n
      → n < 2 ^ 31
      → range p duration_pointers token_meta_pointers
          (copying (reflection p duration_pointers token_meta_pointers))
          (some x)
          (returns new_params)
        ≡ returns (returns (record x { unknown_fields = [] }))
  unfolding range range_over
  copy_params h h_duration h_token_meta x n is_n small_max_redeem_entries = ap returns (
      Copies.copied (
        Copies-cons r is_r x fd_redeem_dur _ new_params
          (record new_params { redeem_dur = x.redeem_dur })
          (rw (h_duration.pointer-round x.redeem_dur))
          (λ e. ap (λ s. record new_params { redeem_dur = s }) (unset x.redeem_dur e))
          (Copies-cons r is_r x fd_max_redeem_entries _ _
            (record new_params {
              redeem_dur = x.redeem_dur;
              max_redeem_entries = x.max_redeem_entries;
            })
            (rw (h.int32-round x.max_redeem_entries, is_n, wrap_i32-pos n small_max_redeem_entries))
            (λ e.
              ap (λ s. record new_params { redeem_dur = x.redeem_dur; max_redeem_entries = s })
                (zero_int x.max_redeem_entries e))
            (Copies-cons r is_r x fd_collateral_metas _ _
              (record new_params {
                redeem_dur = x.redeem_dur;
                max_redeem_entries = x.max_redeem_entries;
                collateral_metas = x.collateral_metas;
              })
              (rw (h_token_meta.pointer-round x.collateral_metas))
              (λ e.
                ap
                  (λ s. record new_params {
                    redeem_dur = x.redeem_dur;
                    max_redeem_entries = x.max_redeem_entries;
                    collateral_metas = s;
                  })
                  (unset x.collateral_metas e))
              (Copies-cons r is_r x fd_hal_meta _ _
                (record new_params {
                  redeem_dur = x.redeem_dur;
                  max_redeem_entries = x.max_redeem_entries;
                  collateral_metas = x.collateral_metas;
                  hal_meta = x.hal_meta;
                })
                (rw (h_token_meta.pointer-round x.hal_meta))
                (λ e.
                  ap
                    (λ s. record new_params {
                      redeem_dur = x.redeem_dur;
                      max_redeem_entries = x.max_redeem_entries;
                      collateral_metas = x.collateral_metas;
                      hal_meta = s;
                    })
                    (unset x.hal_meta e))
                (Copies-nil r is_r x _))))))
    where
      r : Reflection V Field (Params Duration)
      r = reflection p duration_pointers token_meta_pointers

      is_r : IsReflection r
      is_r = reflection-IsReflection
