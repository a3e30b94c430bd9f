-- ===== src/Api/TokenMeta/Interop.antt =====
-- The metadata of a token that the keeper stores, as a struct of the API.
use halborn.Prelude.{◌≡◌, refl, [], append-nil}
use halborn.Types.Params as Types
use halborn.Wire.TokenMeta.RoundTrip as Stored
use halborn.Api.Runtime.Reads.{no_unknown}
use halborn.Api.TokenMeta.{TokenMeta}
use halborn.Api.TokenMeta.RoundTrip.{Fits, encoding}

abbrev pub of_stored : Types.TokenMeta → TokenMeta
of_stored m = record {
  denom = m.denom;
  decimals = m.decimals;
  description = m.description;
  unknown_fields = [];
}

pub of_stored-Fits : (m : Types.TokenMeta) → Stored.Fits m → Fits (of_stored m)
of_stored-Fits m h = record {
  denom_fits = h.denom_fits;
  decimals_fits = h.decimals_fits;
  description_fits = h.description_fits;
  unknowns = [];
  unknowns_lem = refl;
  all_unknown = no_unknown;
}

pub of_stored-encoding : (m : Types.TokenMeta) → encoding (of_stored m) ≡ Stored.encoding m
unfolding encoding Stored.encoding
of_stored-encoding m = rw append-nil refl
