-- ===== src/Keeper/Requests/Collect.antt =====
-- GetAllRedeemRequests: every value of the store that unmarshals as a request is taken for one.
use halborn.Prelude.{
  ◌<◌, ◌^◌, ◌≡◌, ◌≢◌, ◌∙◌, refl, Bytes, List, [], ◌∷◌, some, bytes_eq, bytes_eq_refl, Bool-cases,
  inl, inr, length,
}
use mathlib.Core.List.{Memᴰ}
use mathlib.Core.Option.{some-injective, none-ne-some}
use halborn.Types.Coin.{Coin, no_coin}
use halborn.Types.Records.{Ticket, RedeemRequest, zero_time}
use halborn.Wire.Result as Wire
use halborn.Wire.Ticket.RoundTrip as TicketCodec
use halborn.Wire.RedeemRequest as Codec
use halborn.Wire.RedeemRequest.RoundTrip as Laws
use halborn.Wire.RedeemRequest.Confusion.{unmarshal-ticket}
use halborn.Sdk.Store.{value_of}
use halborn.Sdk.Env.{Sdk, IsSdk}
use halborn.Keeper.Exec.{ok}
use halborn.Keeper.State.{State}
use halborn.Keeper.Requests.{
  request_key, keep, collect, get_all_redeem_requests, set_redeem_request,
}

mem-keep :
    (o : Wire.Result RedeemRequest) (rs : List RedeemRequest) (r : RedeemRequest)
    → Memᴰ r rs
    → Memᴰ r (keep o rs)
unfolding keep
mem-keep (Wire.ok a) rs r m = Memᴰ.tail m
mem-keep (Wire.err e) rs r m = m
mem-keep Wire.stuck rs r m = m

module _ (x : Sdk) where
  mem-collect :
      (es : List (Bytes × Bytes)) (k v : Bytes) (r : RedeemRequest)
      → value_of k es ≡ some v
      → Codec.unmarshal x.gogo v ≡ Wire.ok r
      → Memᴰ r (collect x es)
  unfolding collect keep
  mem-collect [] k v r h e = elim (none-ne-some v h) [ ]
  mem-collect ((j, w) ∷ es) k v r h e = elim (Bool-cases (bytes_eq j k)) [
    | inl same ↦ let found = some-injective w v (rw same at h) in rw (found, e) (Memᴰ.head refl)
    | inr other ↦ mem-keep _ _ r (mem-collect es k v r (rw other at h) e)
  ]

module _ (x : Sdk) (laws : IsSdk x) where
  -- A value of the store that unmarshals as a request is among the requests, whatever its key.
  pub get_all_redeem_requests-value :
      (s : State x) (k v : Bytes) (r : RedeemRequest)
      → x.kv.get s.kv k ≡ some v
      → Codec.unmarshal x.gogo v ≡ Wire.ok r
      → (rs : List RedeemRequest) × (get_all_redeem_requests x s ≡ (ok rs, s)) × Memᴰ r rs
  unfolding get_all_redeem_requests
  get_all_redeem_requests-value s k v r found e =
      let (es, all, values) = laws.kv_laws.entries-get s.kv in
      (collect x es, rw all, mem-collect x es k v r (values k ∙ found) e)

  -- A request whose time can be marshalled and whose fields are short: SetRedeemRequest stores it,
  -- and then it is among what GetAllRedeemRequests returns.
  pub get_all_redeem_requests-set_redeem_request :
      (s : State x) (r : RedeemRequest) (time : Bytes)
      → x.gogo.time_marshal r.completiontime ≡ some time
      → Laws.Fits x.gogo r time
      → length (Laws.encoding x.gogo r time) < 2 ^ 63
      → (s' : State x) × (rs : List RedeemRequest) × (set_redeem_request x r s ≡ (ok tt, s'))
        × (get_all_redeem_requests x s' ≡ (ok rs, s'))
        × Memᴰ r rs
  unfolding set_redeem_request
  get_all_redeem_requests-set_redeem_request s r time timed fits short =
      let (bz, written, read) =
        Laws.unmarshal-marshal_request x.gogo r time timed laws.codec fits short in
      let s' : State x = record { kv = x.kv.set s.kv (request_key r.account) bz; bank = s.bank } in
      let found =
        rw (bytes_eq_refl (request_key r.account)) at
          (laws.kv_laws.get-set s.kv (request_key r.account) (request_key r.account) bz) in
      let (rs, all, m) = get_all_redeem_requests-value s' (request_key r.account) bz r found read in
      (s', rs, rw written, all, m)

  -- If a key of the store holds a marshalled ticket with the id 0 whose issue is not empty and
  -- unmarshals as a coin, GetAllRedeemRequests returns a request of that coin for the ticket's
  -- author, complete since Go's zero time.
  pub get_all_redeem_requests-ticket :
      (s : State x) (k : Bytes) (t : Ticket) (c : Coin)
      → t.id ≡ 0
      → t.issue ≢ []
      → x.gogo.coin_unmarshal no_coin t.issue ≡ some c
      → length (TicketCodec.encoding t) < 2 ^ 63
      → x.kv.get s.kv k ≡ some (TicketCodec.encoding t)
      → (rs : List RedeemRequest) × (get_all_redeem_requests x s ≡ (ok rs, s))
        × Memᴰ (record { account = t.author; collateral = c; completiontime = zero_time }) rs
  get_all_redeem_requests-ticket s k t c first given e short found =
      get_all_redeem_requests-value s k (TicketCodec.encoding t) _ found
        (unmarshal-ticket x.gogo t first given e short)
