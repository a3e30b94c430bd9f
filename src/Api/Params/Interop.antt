-- ===== src/Api/Params/Interop.antt =====
-- Parameters that the keeper stores, read and written by the API.
use halborn.Prelude.{◌<◌, ◌^◌, ◌≡◌, refl, Bytes, [], append-nil, length, none, some, false}
use halborn.Types.Params as Types
use halborn.Wire.Result.{ok}
use halborn.Wire.Gogo.{Gogo}
use halborn.Wire.Encoding.{bytes_field}
use halborn.Wire.Params as Wire
use halborn.Wire.Params.RoundTrip as Stored
use halborn.Wire.TokenMeta.RoundTrip as StoredMeta
use halborn.Api.Runtime.{Runtime, Codec}
use halborn.Api.Runtime.Writes.{IsRuntime, Encodes, set_field}
use halborn.Api.Runtime.Reads.{no_unknown}
use halborn.Api.TokenMeta.Codec as Meta
use halborn.Api.TokenMeta.RoundTrip.{codec-Encodes}
use halborn.Api.TokenMeta.Interop as MetaInterop
use halborn.Api.Params.{Params, new_params}
use halborn.Api.Params.Codec.{marshal, unmarshal}
use halborn.Api.Params.RoundTrip.{Fits, encoding, unmarshal-marshal_api_params}

meta-Encodes :
    (rt : Runtime)
    → IsRuntime rt
    → (m : Types.TokenMeta) → StoredMeta.Fits m
    → length (StoredMeta.encoding m) < 2 ^ 63
    → Encodes (Meta.codec rt false) (MetaInterop.of_stored m) (StoredMeta.encoding m)
meta-Encodes rt is_rt m h short =
    let same = MetaInterop.of_stored-encoding m in
    rw same at (
      codec-Encodes rt is_rt (MetaInterop.of_stored m) (MetaInterop.of_stored-Fits m h)
        (rw same short))

-- The same parameters, as a struct of the API, where `d` is the duration.
abbrev pub of_stored : {Duration : Type 0} → Types.Params → Duration → Params Duration
of_stored p d = record {
  redeem_dur = some d;
  max_redeem_entries = p.max_redeem_entries;
  collateral_metas = some (MetaInterop.of_stored p.collateral_metas);
  hal_meta = some (MetaInterop.of_stored p.hal_meta);
  unknown_fields = [];
}

module _ {Duration : Type 0} (rt : Runtime) (is_rt : IsRuntime rt) (duration : Codec Duration)
    (d : Duration) (p : Types.Params) (dur : Bytes) where
  abbrev collateral_bytes : Bytes
  collateral_bytes = bytes_field 0x1a (StoredMeta.encoding p.collateral_metas)

  abbrev hal_bytes : Bytes
  hal_bytes = bytes_field 0x22 (StoredMeta.encoding p.hal_meta)

  of_stored-Fits :
      Encodes duration d dur
      → Stored.Fits p dur
      → Fits duration
          (Meta.codec rt false)
          (of_stored p d)
          (bytes_field 0x0a dur)
          collateral_bytes
          hal_bytes
  of_stored-Fits e h = record {
    redeem_dur_encoded = set_field d dur e;
    max_redeem_entries_number = h.entries;
    max_redeem_entries_lem = h.entries_lem;
    max_redeem_entries_fits = h.entries_fit;
    collateral_metas_encoded =
        set_field _ _
          (meta-Encodes rt is_rt p.collateral_metas h.collateral_fits h.collateral_short);
    hal_meta_encoded = set_field _ _ (meta-Encodes rt is_rt p.hal_meta h.hal_fits h.hal_short);
    unknowns = [];
    unknowns_lem = refl;
    all_unknown = no_unknown;
  }

  of_stored-encoding :
      encoding (of_stored p d) (bytes_field 0x0a dur) collateral_bytes hal_bytes
      ≡ Stored.encoding p dur
  unfolding encoding Stored.encoding
  of_stored-encoding = rw append-nil refl

  -- For parameters whose number of entries is an int32 that is not negative and whose fields are
  -- short, with a duration whose two codecs write the same bytes: the API's marshal of the same
  -- parameters gives the bytes that Params.Marshal gives to the store, and the API's unmarshal
  -- reads them, where the bytes are fewer than 2 ^ 63 and the runtime's functions do what they
  -- say.
  pub marshal_params-interop :
      (g : Gogo)
      → g.duration_marshal p.redeem_dur ≡ some dur
      → Encodes duration d dur
      → Stored.Fits p dur
      → length (Stored.encoding p dur) < 2 ^ 63
      → (marshal rt duration (Meta.codec rt false) none (some (of_stored p d))
          ≡ some (Wire.marshal g p))
        × (unmarshal rt duration
              (Meta.codec rt false)
              false
              (some new_params)
              (Stored.encoding p dur)
            ≡ ok (some (of_stored p d)))
  marshal_params-interop g timed e h short =
      let same = of_stored-encoding in
      let (_, written, read) = rw same at (
        unmarshal-marshal_api_params rt duration (Meta.codec rt false) is_rt (of_stored p d)
          (bytes_field 0x0a dur) collateral_bytes hal_bytes (of_stored-Fits e h) (rw same short)
          none) in
      (rw (Stored.marshal-encoding g p dur timed h) written, read)
