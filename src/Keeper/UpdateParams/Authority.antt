-- ===== src/Keeper/UpdateParams/Authority.antt =====
-- Who may change the parameters.
use halborn.Prelude.{◌<◌, ◌^◌, ◌≡◌, ◌≢◌, Bytes, some, length, bytes_eq_refl, bytes_ne→false}
use halborn.Types.Messages.{MsgUpdateParams}
use halborn.Wire.Params.RoundTrip.{Fits, encoding}
use halborn.Sdk.Env.{Sdk, IsSdk}
use halborn.Keeper.Exec.{ok, err, invalid_signer}
use halborn.Keeper.State.{State}
use halborn.Keeper.Params.RoundTrip.{get_params-set_params}
use halborn.Keeper.UpdateParams.{update_params, query_params}

module _ (x : Sdk) where
  -- Anyone but the authority is refused, and the parameters stay as they are.
  pub update_params-stranger :
      (authority : Bytes) (req : MsgUpdateParams) (s : State x)
      → authority ≢ req.authority
      → update_params x authority req s ≡ (err invalid_signer, s)
  unfolding update_params
  update_params-stranger authority req s h = rw (bytes_ne→false authority req.authority h)

module _ (x : Sdk) (laws : IsSdk x) where
  -- UpdateParams by the authority succeeds on parameters whose duration can be marshalled, whose
  -- number of entries is an int32 that is not negative, whose fields are short and whose bytes are
  -- fewer than 2 ^ 63, and the query then returns them.
  pub query_params-update_params :
      (req : MsgUpdateParams) (dur : Bytes) (s : State x)
      (timed : x.gogo.duration_marshal req.params.redeem_dur ≡ some dur)
      → Fits req.params dur
      → length (encoding req.params dur) < 2 ^ 63
      → (s' : State x) × (update_params x req.authority req s ≡ (ok tt, s'))
        × (query_params x (some tt) s' ≡ (ok req.params, s'))
  unfolding update_params query_params
  query_params-update_params req dur s timed fits short =
      let (s', set, read, same_bank) =
        get_params-set_params x laws req.params dur s timed fits short in
      (s', rw (bytes_eq_refl req.authority, set), rw read)
