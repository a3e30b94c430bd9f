-- ===== src/Api/Params/Views.antt =====
-- What `Get` gives for a field of Params that is not set.
use halborn.Prelude.{◌≡◌, none, some}
use halborn.Api.Outcome.{Panic, returns, panics}
use halborn.Api.Proto.{FieldDescriptor, Scalars, Pointers}
use halborn.Api.Reflect as Reflect
use halborn.Api.Reflect.Laws.{get-nil}
use halborn.Api.TokenMeta as Meta
use halborn.Api.TokenMeta.{TokenMeta}
use halborn.Api.Params.{Params, fd_collateral_metas, descriptor, field_of, get}

module _ {Duration V : Type 0} (p : Scalars V) (duration_pointers : Pointers V Duration)
    (token_meta_pointers : Pointers V TokenMeta) where
  -- Where the metadata of the collateral is not set, Get on Params returns the value of a nil
  -- pointer, and Get on that nil TokenMeta panics for every descriptor.
  pub get-unset_metas :
      (x : Params Duration) (fd : FieldDescriptor)
      → x.collateral_metas ≡ none
      → (get p duration_pointers token_meta_pointers (descriptor fd_collateral_metas) (some x)
          ≡ returns (token_meta_pointers.value_of_pointer none))
        × (e : Panic) × (Meta.get p fd none ≡ panics e)
  unfolding Reflect.get Reflect.switch field_of
  get-unset_metas x fd unset =
      let (e, fails) = get-nil (Meta.reflection p) fd in (rw unset, e, fails)
