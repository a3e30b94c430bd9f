-- ===== src/Api/RedeemRequest/Laws.antt =====
-- The reflection of RedeemRequest describes its fields.
use halborn.Prelude.{[], ◌≡◌, refl, ap, false, Option, some, List, ◌∷◌}
use halborn.Api.Outcome.{returns, ◌>>=◌}
use halborn.Api.Proto.{FieldDescriptor, Scalars, Pointers, IsScalars, IsPointers}
use halborn.Api.Reflect.{Reflection, Callback, range_over}
use halborn.Api.Reflect.Laws.{
  IsReflection, copying, Copies, Copies-cons, Copies-nil, has-clear_all, empty_string, unset,
}
use halborn.Api.RedeemRequest.{
  RedeemRequest, new_redeem_request, Field, fd_account, fd_collateral, fd_completiontime, field_of,
  full_name, has_field, clear_field, reflection, range, has, clear,
}

abbrev pub fields : List Field
fields = fd_account ∷ fd_collateral ∷ fd_completiontime ∷ []

module _ {Coin Timestamp : Type 0} {V : Type 0} (p : Scalars V) (coin_pointers : Pointers V Coin)
    (timestamp_pointers : Pointers V Timestamp) where
  pub reflection-IsReflection : IsReflection (reflection p coin_pointers timestamp_pointers)
  unfolding field_of
  reflection-IsReflection = record { named = named; has-clear_field = has-clear_field }
    where
      named : (f : Field) → field_of (full_name f) ≡ some f
      named fd_account = refl
      named fd_collateral = refl
      named fd_completiontime = refl

      has-clear_field :
          (f : Field) (x : RedeemRequest Coin Timestamp) → has_field f (clear_field f x) ≡ false
      has-clear_field fd_account x = refl
      has-clear_field fd_collateral x = refl
      has-clear_field fd_completiontime x = refl

  pub has-clear_redeem_request :
      (fd : FieldDescriptor) (x : Option (RedeemRequest Coin Timestamp))
      → (clear p coin_pointers timestamp_pointers fd x >>= λ m.
          has p coin_pointers timestamp_pointers fd (some m))
        ≡ (clear p coin_pointers timestamp_pointers fd x >>= λ m. returns false)
  has-clear_redeem_request =
      has-clear_all (reflection p coin_pointers timestamp_pointers) reflection-IsReflection

  pub range-over_redeem_request :
      {S : Type 0} (f : Callback V S) (x : RedeemRequest Coin Timestamp) (s : S)
      → range p coin_pointers timestamp_pointers f (some x) s
        ≡ returns (range_over (reflection p coin_pointers timestamp_pointers) fields f x s)
  unfolding range range_over
  range-over_redeem_request f x s = refl

  pub copy_redeem_request :
      IsScalars p
      → IsPointers coin_pointers
      → IsPointers timestamp_pointers
      → (x : RedeemRequest Coin Timestamp)
      → range p coin_pointers timestamp_pointers
          (copying (reflection p coin_pointers timestamp_pointers))
          (some x)
          (returns new_redeem_request)
        ≡ returns (returns (record x { unknown_fields = [] }))
  unfolding range range_over
  copy_redeem_request h h_coin h_timestamp x = ap returns (
      Copies.copied (
        Copies-cons r is_r x fd_account _ new_redeem_request
          (record new_redeem_request { account = x.account }) (rw (h.string-round x.account))
          (λ e. ap (λ s. record new_redeem_request { account = s }) (empty_string x.account e))
          (Copies-cons r is_r x fd_collateral _ _
            (record new_redeem_request { account = x.account; collateral = x.collateral })
            (rw (h_coin.pointer-round x.collateral))
            (λ e.
              ap (λ s. record new_redeem_request { account = x.account; collateral = s })
                (unset x.collateral e))
            (Copies-cons r is_r x fd_completiontime _ _
              (record new_redeem_request {
                account = x.account;
                collateral = x.collateral;
                completiontime = x.completiontime;
              })
              (rw (h_timestamp.pointer-round x.completiontime))
              (λ e.
                ap
                  (λ s. record new_redeem_request {
                    account = x.account;
                    collateral = x.collateral;
                    completiontime = s;
                  })
                  (unset x.completiontime e))
              (Copies-nil r is_r x _)))))
    where
      r : Reflection V Field (RedeemRequest Coin Timestamp)
      r = reflection p coin_pointers timestamp_pointers

      is_r : IsReflection r
      is_r = reflection-IsReflection
