-- ===== src/Api/MsgRedeemCollateralResponse/Laws.antt =====
-- The reflection of MsgRedeemCollateralResponse describes its fields.
use halborn.Prelude.{[], ◌≡◌, refl, ap, false, Option, some, List, ◌∷◌}
use halborn.Api.Outcome.{returns, ◌>>=◌}
use halborn.Api.Proto.{FieldDescriptor, Pointers, IsPointers}
use halborn.Api.Reflect.{Reflection, Callback, range_over}
use halborn.Api.Reflect.Laws.{
  IsReflection, copying, Copies, Copies-cons, Copies-nil, has-clear_all, unset,
}
use halborn.Api.MsgRedeemCollateralResponse.{
  MsgRedeemCollateralResponse, new_msg_redeem_collateral_response, Field, fd_burned_amount,
  fd_completion_time, field_of, full_name, has_field, clear_field, reflection, range, has, clear,
}

abbrev pub fields : List Field
fields = fd_burned_amount ∷ fd_completion_time ∷ []

module _ {Coin Timestamp : Type 0} {V : Type 0} (coin_pointers : Pointers V Coin)
    (timestamp_pointers : Pointers V Timestamp) where
  pub reflection-IsReflection : IsReflection (reflection coin_pointers timestamp_pointers)
  unfolding field_of
  reflection-IsReflection = record { named = named; has-clear_field = has-clear_field }
    where
      named : (f : Field) → field_of (full_name f) ≡ some f
      named fd_burned_amount = refl
      named fd_completion_time = refl

      has-clear_field :
          (f : Field) (x : MsgRedeemCollateralResponse Coin Timestamp)
          → has_field f (clear_field f x) ≡ false
      has-clear_field fd_burned_amount x = refl
      has-clear_field fd_completion_time x = refl

  pub has-clear_msg_redeem_collateral_response :
      (fd : FieldDescriptor) (x : Option (MsgRedeemCollateralResponse Coin Timestamp))
      → (clear coin_pointers timestamp_pointers fd x >>= λ m.
          has coin_pointers timestamp_pointers fd (some m))
        ≡ (clear coin_pointers timestamp_pointers fd x >>= λ m. returns false)
  has-clear_msg_redeem_collateral_response =
      has-clear_all (reflection coin_pointers timestamp_pointers) reflection-IsReflection

  pub range-over_msg_redeem_collateral_response :
      {S : Type 0} (f : Callback V S) (x : MsgRedeemCollateralResponse Coin Timestamp) (s : S)
      → range coin_pointers timestamp_pointers f (some x) s
        ≡ returns (range_over (reflection coin_pointers timestamp_pointers) fields f x s)
  unfolding range range_over
  range-over_msg_redeem_collateral_response f x s = refl

  pub copy_msg_redeem_collateral_response :
      IsPointers coin_pointers
      → IsPointers timestamp_pointers
      → (x : MsgRedeemCollateralResponse Coin Timestamp)
      → range coin_pointers timestamp_pointers
          (copying (reflection coin_pointers timestamp_pointers))
          (some x)
          (returns new_msg_redeem_collateral_response)
        ≡ returns (returns (record x { unknown_fields = [] }))
  unfolding range range_over
  copy_msg_redeem_collateral_response h_coin h_timestamp x = ap returns (
      Copies.copied (
        Copies-cons r is_r x fd_burned_amount _ new_msg_redeem_collateral_response
          (record new_msg_redeem_collateral_response { burned_amount = x.burned_amount })
          (rw (h_coin.pointer-round x.burned_amount))
          (λ e.
            ap (λ s. record new_msg_redeem_collateral_response { burned_amount = s })
              (unset x.burned_amount e))
          (Copies-cons r is_r x fd_completion_time _ _
            (record new_msg_redeem_collateral_response {
              burned_amount = x.burned_amount;
              completion_time = x.completion_time;
            })
            (rw (h_timestamp.pointer-round x.completion_time))
            (λ e.
              ap
                (λ s. record new_msg_redeem_collateral_response {
                  burned_amount = x.burned_amount;
                  completion_time = s;
                })
                (unset x.completion_time e))
            (Copies-nil r is_r x _))))
    where
      r : Reflection V Field (MsgRedeemCollateralResponse Coin Timestamp)
      r = reflection coin_pointers timestamp_pointers

      is_r : IsReflection r
      is_r = reflection-IsReflection
