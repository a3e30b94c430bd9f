-- ===== src/Wire/RedeemRequest/Confusion.antt =====
-- What `RedeemRequest.Unmarshal` makes of the bytes of a stored ticket. `GetAllRedeemRequests` runs
-- it on every value of the store.
use halborn.Prelude.{
  ℕ, ◌<◌, ◌^◌, ◌≡◌, ◌≢◌, refl, arith, Bytes, [], ◌∷◌, length, some, Option-cases, inl, inr, ◌⊎◌,
  lt→ltb, ne→==_false,
}
use halborn.Types.Coin.{Coin, no_coin}
use halborn.Types.Records.{Ticket, RedeemRequest, no_request, zero_time}
use halborn.Wire.Result.{ok, err, WireError, wrong_wire_type, nested}
use halborn.Wire.Gogo.{Gogo}
use halborn.Wire.Encoding.{string_field, varint_field, varint}
use halborn.Wire.Reads.{
  Reads, Reads-nil, Reads-append, Reads-string_field, Reads-bytes_field, Reads-unknown,
  unmarshal_all-Reads,
}
use halborn.Wire.Reader.{bytes_case}
use halborn.Wire.Fails.{
  Fails, Fails-wrong_type, Fails-nested, Fails-after, Fails-before, unmarshal_all-Fails,
}
use halborn.Wire.Ticket.RoundTrip.{encoding}
use halborn.Wire.RedeemRequest.{unmarshal_field, unmarshal}

module _ (g : Gogo) where
  -- The account of the request is the author of the ticket.
  author-Reads :
      (s : Bytes)
      → Reads
          (unmarshal_field g)
          (string_field 0x0a s)
          no_request
          (record no_request { account = s })
  unfolding unmarshal_field
  author-Reads s =
      Reads-string_field _ 0x0a s (λ x. record no_request { account = x }) (omega arith)
        (omega arith) (omega arith) (λ pre c. refl)

  -- Its collateral is what the codec of coins reads in the issue.
  issue-Reads :
      (s : Bytes) (r : RedeemRequest) (c : Coin)
      → s ≢ []
      → g.coin_unmarshal r.collateral s ≡ some c
      → Reads (unmarshal_field g) (string_field 0x12 s) r (record r { collateral = c })
  unfolding unmarshal_field string_field
  issue-Reads [] r c h e = absurd (h refl)
  issue-Reads (x ∷ s) r c h e = rw (lt→ltb 0 (length (x ∷ s)) (omega arith)) (
      Reads-bytes_field _ 0x12 (x ∷ s) _ (omega arith) (omega arith) (omega arith) (λ pre c. refl)
        (rw e))

  -- It has no field for the additional information.
  info-Reads : (s : Bytes) (r : RedeemRequest) → Reads (unmarshal_field g) (string_field 0x22 s) r r
  unfolding unmarshal_field string_field
  info-Reads [] r = Reads-nil _ r
  info-Reads (x ∷ s) r =
      rw (lt→ltb 0 (length (x ∷ s)) (omega arith))
        (Reads-unknown _ 0x22 (x ∷ s) (omega arith) (omega arith) (omega arith) (λ pre c. refl))

  -- The issue is read as a coin, or the codec of coins refuses it.
  issue_cases :
      (s : Bytes) (r : RedeemRequest)
      → ((r' : RedeemRequest) × Reads (unmarshal_field g) (string_field 0x12 s) r r')
        ⊎ Fails (unmarshal_field g) (string_field 0x12 s) r nested
  unfolding unmarshal_field string_field
  issue_cases [] r = inl (r, Reads-nil _ r)
  issue_cases (x ∷ s) r = elim (Option-cases (g.coin_unmarshal r.collateral (x ∷ s))) [
    | inl refused ↦ inr (
        rw (lt→ltb 0 (length (x ∷ s)) (omega arith)) (
          Fails-nested _ 0x12 (x ∷ s) _ nested (omega arith) (omega arith) (omega arith)
            (λ pre c. refl) (rw refused)))
    | inr (c, e) ↦ inl (record r { collateral = c }, issue-Reads (x ∷ s) r c (λ p. cc) e)
  ]

  -- A ticket's id stands at the number of the completion time, with another wire type.
  id-Fails :
      (id : ℕ) (r : RedeemRequest)
      → id ≢ 0
      → Fails (unmarshal_field g) (varint_field 0x18 id) r wrong_wire_type
  unfolding unmarshal_field varint_field bytes_case
  id-Fails id r h = rw (ne→==_false id 0 h) (
      Fails-wrong_type _ 0x18 (varint id) (omega arith) (omega arith) (omega arith) (λ pre c. refl))

  -- The first ticket, whose id 0 is not written: if its issue is a marshalled coin, the bytes are
  -- those of a redeem request of that coin for the ticket's author, complete since the year 1.
  pub unmarshal-ticket :
      (t : Ticket) {c : Coin}
      → t.id ≡ 0
      → t.issue ≢ []
      → g.coin_unmarshal no_coin t.issue ≡ some c
      → length (encoding t) < 2 ^ 63
      → unmarshal g (encoding t)
        ≡ ok (record { account = t.author; collateral = c; completiontime = zero_time })
  unfolding unmarshal encoding varint_field
  unmarshal-ticket t {c} first given e short =
      unmarshal_all-Reads (unmarshal_field g) (encoding t) whole short
    where
      whole :
          Reads
            (unmarshal_field g)
            (encoding t)
            no_request
            (record { account = t.author; collateral = c; completiontime = zero_time })
      whole = Reads-append _ (string_field 0x0a t.author) _ (author-Reads t.author) (
          Reads-append _ (string_field 0x12 t.issue) _
            (issue-Reads t.issue (record no_request { account = t.author }) c given e)
            (rw first (info-Reads t.additional_info _)))

  -- The bytes of a ticket whose id is not 0, fewer than 2 ^ 63, do not unmarshal as a redeem
  -- request: the result is an error.
  pub unmarshal-later_ticket :
      (t : Ticket)
      → t.id ≢ 0
      → length (encoding t) < 2 ^ 63
      → (e : WireError) × (unmarshal g (encoding t) ≡ err e)
  unfolding unmarshal encoding
  unmarshal-later_ticket t later short =
      elim (issue_cases t.issue (record no_request { account = t.author })) [
        | inl (r, reads) ↦ (
          wrong_wire_type,
          unmarshal_all-Fails (unmarshal_field g) _
              (Fails-after _ (string_field 0x0a t.author) _ (author-Reads t.author) (
                Fails-after _ (string_field 0x12 t.issue) _ reads
                  (Fails-before _ (varint_field 0x18 t.id) _ (id-Fails t.id r later))))
              short,
        )
        | inr fails ↦ (
          nested,
          unmarshal_all-Fails (unmarshal_field g) _
              (Fails-after _ (string_field 0x0a t.author) _ (author-Reads t.author)
                (Fails-before _ (string_field 0x12 t.issue) _ fails))
              short,
        )
      ]
