-- ===== src/Keeper/UpdateParams.antt =====
-- The handler of MsgUpdateParams, and the query of the parameters: x/hal/keeper/msg_update_params.go
-- and query_params.go.
pub mod Authority
pub mod Halt
use halborn.Prelude.{Bytes, Option, none, some, not, bytes_eq}
use halborn.Types.Params.{Params}
use halborn.Types.Messages.{MsgUpdateParams}
use halborn.Sdk.Env.{Sdk}
use halborn.Keeper.Exec.{Exec, ◌>>◌, err_if, invalid_signer, invalid_argument, or_err}
use halborn.Keeper.State.{State}
use halborn.Keeper.Params.{get_params, set_params}

-- NewKeeper panics on an authority that is no address; `none` is that panic, and the rest of what it is
-- given stands in Sdk and State.
unfoldable pub new_keeper_authority : (Bytes → Option Bytes) → Bytes → Option Bytes
new_keeper_authority from_bech32 authority = elim (from_bech32 authority) [
  | none ↦ none
  | some a ↦ some authority
]

module _ (x : Sdk) where
  -- `authority` is the keeper's field, the address of the governance module.
  unfoldable pub update_params : Bytes → MsgUpdateParams → Exec (State x) (Unit {0})
  update_params authority req = do
    err_if (not (bytes_eq authority req.authority)) invalid_signer
    set_params x req.params

  -- Keeper.Params; a request is nil or has no fields.
  unfoldable pub query_params : Option (Unit {0}) → Exec (State x) Params
  query_params req = do or_err invalid_argument req; get_params x
