-- ===== src/Keeper/Params.antt =====
-- Keeper.GetParams and SetParams: x/hal/keeper/params.go. Genesis: x/hal/module/genesis.go.
pub mod RoundTrip
use halborn.Prelude.{Option, none, some, Bytes}
use halborn.Types.Params.{Params, no_params}
use halborn.Types.Messages.{GenesisState, default_genesis}
use halborn.Types.Keys.{params_key}
use halborn.Wire.Result as Wire
use halborn.Wire.Params as Codec
use halborn.Sdk.Env.{Sdk}
use halborn.Keeper.Exec.{
  Outcome, ok, err, panic, Exec, pure, ◌>>=◌, gets, or_err, or_panic, modify, codec_failed,
}
use halborn.Keeper.State.{State}

-- `MustUnmarshal`
abbrev must : {A : Type 0} → Wire.Result A → Option A
must (Wire.ok a) = some a
must (Wire.err e) = none
must Wire.stuck = none

abbrev panic_on_err : {A S : Type 0} → Outcome A × S → Outcome A × S
panic_on_err (ok a, s) = (ok a, s)
panic_on_err (err e, s) = (panic, s)
panic_on_err (panic, s) = (panic, s)

module _ (x : Sdk) where
  unfoldable pub read_params : Option Bytes → Exec (State x) Params
  read_params none = pure no_params
  read_params (some bz) = or_panic (must (Codec.unmarshal x.gogo bz))

  unfoldable pub get_params : Exec (State x) Params
  unfolding read_params
  get_params = do bz ← gets (λ s. x.kv.get s.kv params_key); read_params bz

  unfoldable pub set_params : Params → Exec (State x) (Unit {0})
  set_params params = do
    bz ← or_err codec_failed (Codec.marshal x.gogo params)
    modify (λ s. record s { kv = x.kv.set s.kv params_key bz })

  -- `if err := k.SetParams(…); err != nil { panic(err) }`
  unfoldable pub init_genesis : GenesisState → Exec (State x) (Unit {0})
  unfolding set_params
  init_genesis gen s = panic_on_err (set_params gen.params s)

  unfoldable pub export_genesis : Exec (State x) GenesisState
  unfolding get_params default_genesis
  export_genesis = do params ← get_params; pure (record default_genesis { params = params })
