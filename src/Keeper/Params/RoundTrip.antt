-- ===== src/Keeper/Params/RoundTrip.antt =====
-- Parameters and genesis, written and read back.
use halborn.Prelude.{◌<◌, ◌^◌, ◌≡◌, Bytes, Option, none, some, length, ap, refl}
use halborn.Types.Params.{Params}
use halborn.Types.Messages.{GenesisState}
use halborn.Types.Keys.{params_key}
use halborn.Wire.Params as Codec
use halborn.Wire.Params.RoundTrip.{Fits, encoding, unmarshal-marshal_params, unmarshal-encoding}
use halborn.Sdk.Env.{Sdk, IsSdk}
use halborn.Keeper.Exec.{ok, or_panic}
use halborn.Keeper.State.{State}
use halborn.Keeper.Params.{must, read_params, get_params, set_params, init_genesis, export_genesis}

or_panic-same :
    {S A : Type 0} (o : Option A) (a : A) (s s' : S)
    → or_panic o s ≡ (ok a, s)
    → or_panic o s' ≡ (ok a, s')
or_panic-same none a s s' h = ap (λ r. (r.0, s')) h
or_panic-same (some b) a s s' h = ap (λ r. (r.0, s')) h

read_params-bank :
    (x : Sdk) (o : Option Bytes) (s s' : State x) (params : Params)
    → read_params x o s ≡ (ok params, s)
    → read_params x o s' ≡ (ok params, s')
unfolding read_params
read_params-bank x none s s' params h = ap (λ r. (r.0, s')) h
read_params-bank x (some bz) s s' params h =
    or_panic-same (must (Codec.unmarshal x.gogo bz)) params s s' h

-- Only the module's own store is read.
pub get_params-bank :
    (x : Sdk) (s : State x) (params : Params) (b : x.bank.State)
    → get_params x s ≡ (ok params, s)
    → get_params x (record s { bank = b }) ≡ (ok params, record s { bank = b })
unfolding get_params
get_params-bank x s params b h =
    read_params-bank x (x.kv.get s.kv params_key) s (record s { bank = b }) params h

-- So does a state with the same bytes under their key.
pub get_params-same :
    (x : Sdk) (s s' : State x) (params : Params)
    → x.kv.get s'.kv params_key ≡ x.kv.get s.kv params_key
    → get_params x s ≡ (ok params, s)
    → get_params x s' ≡ (ok params, s')
unfolding get_params
get_params-same x s s' params same h =
    rw same (read_params-bank x (x.kv.get s.kv params_key) s s' params h)

module _ (x : Sdk) (laws : IsSdk x) where
  -- Parameters that can be marshalled are read back as they were set, and setting them succeeds.
  pub get_params-set_params :
      (p : Params) (dur : Bytes) (s : State x)
      (timed : x.gogo.duration_marshal p.redeem_dur ≡ some dur)
      → Fits p dur
      → length (encoding p dur) < 2 ^ 63
      → (s' : State x) × (set_params x p s ≡ (ok tt, s'))
        × (get_params x s' ≡ (ok p, s'))
        × (s'.bank ≡ s.bank)
  unfolding set_params get_params read_params
  get_params-set_params p dur s timed h short =
      let (bz, written, read) = unmarshal-marshal_params x.gogo p dur timed laws.codec h short in
      (
        record s { kv = x.kv.set s.kv params_key bz },
        rw written,
        rw (laws.kv_laws.get-set s.kv params_key params_key bz, read),
        refl,
      )

  -- Parameters that stand marshalled in the store are read.
  pub get_params-encoding :
      (p : Params) (dur : Bytes) (s : State x)
      (timed : x.gogo.duration_marshal p.redeem_dur ≡ some dur)
      → Fits p dur
      → length (encoding p dur) < 2 ^ 63
      → x.kv.get s.kv params_key ≡ some (encoding p dur)
      → get_params x s ≡ (ok p, s)
  unfolding get_params read_params
  get_params-encoding p dur s timed h short found =
      rw (found, unmarshal-encoding x.gogo p dur timed laws.codec h short)

  -- InitGenesis succeeds on parameters whose duration can be marshalled, whose number of entries
  -- is an int32 that is not negative, whose fields are short and whose bytes are fewer than 2 ^
  -- 63, and ExportGenesis then returns the genesis state that was imported.
  pub export_genesis-init_genesis :
      (gen : GenesisState) (dur : Bytes) (s : State x)
      (timed : x.gogo.duration_marshal gen.params.redeem_dur ≡ some dur)
      → Fits gen.params dur
      → length (encoding gen.params dur) < 2 ^ 63
      → (s' : State x) × (init_genesis x gen s ≡ (ok tt, s')) × (export_genesis x s' ≡ (ok gen, s'))
  unfolding init_genesis export_genesis
  export_genesis-init_genesis gen dur s timed h short =
      let (s', done_set, read, same_bank) = get_params-set_params gen.params dur s timed h short in
      (s', rw done_set, rw read)
