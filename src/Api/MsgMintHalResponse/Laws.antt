-- ===== src/Api/MsgMintHalResponse/Laws.antt =====
-- The reflection of MsgMintHalResponse describes its fields.
use halborn.Prelude.{[], ◌≡◌, refl, ap, false, Option, some, List, ◌∷◌}
use halborn.Api.Outcome.{returns, ◌>>=◌}
use halborn.Api.Proto.{FieldDescriptor, Pointers, IsPointers}
use halborn.Api.Reflect.{Reflection, Callback, range_over}
use halborn.Api.Reflect.Laws.{
  IsReflection, copying, Copies, Copies-cons, Copies-nil, has-clear_all, unset,
}
use halborn.Api.MsgMintHalResponse.{
  MsgMintHalResponse, new_msg_mint_hal_response, Field, fd_minted_amount, field_of, full_name,
  has_field, clear_field, reflection, range, has, clear,
}

abbrev pub fields : List Field
fields = fd_minted_amount ∷ []

module _ {Coin : Type 0} {V : Type 0} (coin_pointers : Pointers V Coin) where
  pub reflection-IsReflection : IsReflection (reflection coin_pointers)
  unfolding field_of
  reflection-IsReflection = record { named = named; has-clear_field = has-clear_field }
    where
      named : (f : Field) → field_of (full_name f) ≡ some f
      named fd_minted_amount = refl

      has-clear_field :
          (f : Field) (x : MsgMintHalResponse Coin) → has_field f (clear_field f x) ≡ false
      has-clear_field fd_minted_amount x = refl

  pub has-clear_msg_mint_hal_response :
      (fd : FieldDescriptor) (x : Option (MsgMintHalResponse Coin))
      → (clear coin_pointers fd x >>= λ m. has coin_pointers fd (some m))
        ≡ (clear coin_pointers fd x >>= λ m. returns false)
  has-clear_msg_mint_hal_response = has-clear_all (reflection coin_pointers) reflection-IsReflection

  pub range-over_msg_mint_hal_response :
      {S : Type 0} (f : Callback V S) (x : MsgMintHalResponse Coin) (s : S)
      → range coin_pointers f (some x) s
        ≡ returns (range_over (reflection coin_pointers) fields f x s)
  unfolding range range_over
  range-over_msg_mint_hal_response f x s = refl

  pub copy_msg_mint_hal_response :
      IsPointers coin_pointers
      → (x : MsgMintHalResponse Coin)
      → range coin_pointers
          (copying (reflection coin_pointers))
          (some x)
          (returns new_msg_mint_hal_response)
        ≡ returns (returns (record x { unknown_fields = [] }))
  unfolding range range_over
  copy_msg_mint_hal_response h_coin x = ap returns (
      Copies.copied (
        Copies-cons r is_r x fd_minted_amount _ new_msg_mint_hal_response
          (record new_msg_mint_hal_response { minted_amount = x.minted_amount })
          (rw (h_coin.pointer-round x.minted_amount))
          (λ e.
            ap (λ s. record new_msg_mint_hal_response { minted_amount = s })
              (unset x.minted_amount e))
          (Copies-nil r is_r x _)))
    where
      r : Reflection V Field (MsgMintHalResponse Coin)
      r = reflection coin_pointers

      is_r : IsReflection r
      is_r = reflection-IsReflection
