-- ===== src/Api/MsgMintHal/Laws.antt =====
-- The reflection of MsgMintHal describes its fields.
use halborn.Prelude.{[], ◌≡◌, refl, ap, false, Option, some, List, ◌∷◌}
use halborn.Api.Outcome.{returns, ◌>>=◌}
use halborn.Api.Proto.{FieldDescriptor, Scalars, Pointers, IsScalars, IsPointers}
use halborn.Api.Reflect.{Reflection, Callback, range_over}
use halborn.Api.Reflect.Laws.{
  IsReflection, copying, Copies, Copies-cons, Copies-nil, has-clear_all, empty_string, unset,
}
use halborn.Api.MsgMintHal.{
  MsgMintHal, new_msg_mint_hal, Field, fd_creator, fd_collateral_amount, field_of, full_name,
  has_field, clear_field, reflection, range, has, clear,
}

abbrev pub fields : List Field
fields = fd_creator ∷ fd_collateral_amount ∷ []

module _ {Coin : Type 0} {V : Type 0} (p : Scalars V) (coin_pointers : Pointers V Coin) where
  pub reflection-IsReflection : IsReflection (reflection p coin_pointers)
  unfolding field_of
  reflection-IsReflection = record { named = named; has-clear_field = has-clear_field }
    where
      named : (f : Field) → field_of (full_name f) ≡ some f
      named fd_creator = refl
      named fd_collateral_amount = refl

      has-clear_field : (f : Field) (x : MsgMintHal Coin) → has_field f (clear_field f x) ≡ false
      has-clear_field fd_creator x = refl
      has-clear_field fd_collateral_amount x = refl

  pub has-clear_msg_mint_hal :
      (fd : FieldDescriptor) (x : Option (MsgMintHal Coin))
      → (clear p coin_pointers fd x >>= λ m. has p coin_pointers fd (some m))
        ≡ (clear p coin_pointers fd x >>= λ m. returns false)
  has-clear_msg_mint_hal = has-clear_all (reflection p coin_pointers) reflection-IsReflection

  pub range-over_msg_mint_hal :
      {S : Type 0} (f : Callback V S) (x : MsgMintHal Coin) (s : S)
      → range p coin_pointers f (some x) s
        ≡ returns (range_over (reflection p coin_pointers) fields f x s)
  unfolding range range_over
  range-over_msg_mint_hal f x s = refl

  pub copy_msg_mint_hal :
      IsScalars p
      → IsPointers coin_pointers
      → (x : MsgMintHal Coin)
      → range p coin_pointers
          (copying (reflection p coin_pointers))
          (some x)
          (returns new_msg_mint_hal)
        ≡ returns (returns (record x { unknown_fields = [] }))
  unfolding range range_over
  copy_msg_mint_hal h h_coin x = ap returns (
      Copies.copied (
        Copies-cons r is_r x fd_creator _ new_msg_mint_hal
          (record new_msg_mint_hal { creator = x.creator }) (rw (h.string-round x.creator))
          (λ e. ap (λ s. record new_msg_mint_hal { creator = s }) (empty_string x.creator e))
          (Copies-cons r is_r x fd_collateral_amount _ _
            (record new_msg_mint_hal {
              creator = x.creator;
              collateral_amount = x.collateral_amount;
            })
            (rw (h_coin.pointer-round x.collateral_amount))
            (λ e.
              ap (λ s. record new_msg_mint_hal { creator = x.creator; collateral_amount = s })
                (unset x.collateral_amount e))
            (Copies-nil r is_r x _))))
    where
      r : Reflection V Field (MsgMintHal Coin)
      r = reflection p coin_pointers

      is_r : IsReflection r
      is_r = reflection-IsReflection
