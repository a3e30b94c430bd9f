-- ===== src/Wire/Ends/Messages.antt =====
-- `Unmarshal` of every stored record ends on every input.
use halborn.Prelude.{
  ℕ, zero, suc, ◌%◌, ◌/◌, ◌^◌, ◌≤◌, ◌<◌, ◌≢◌, arith, Bytes, [], ◌∷◌, length, ◌==◌, ◌||◌, leb,
  Option, none, some,
}
use halborn.Types.Params.{TokenMeta}
use halborn.Wire.Result.{Result, stuck, end_group, illegal_tag}
use halborn.Wire.Reader.{Cursor, unmarshal_loop, unmarshal_all, nested_or, bytes_case, varint_case}
use halborn.Wire.VarintRead.{after}
use halborn.Wire.Gogo.{Gogo}
use halborn.Wire.Params.{merged}
use halborn.Wire.Ends.{
  Ends, returned, failed, Ends-bind, Ends-then, Ends-if, Ends-map, Ends-not_stuck, Moves,
  read_varint-Ends, bytes_case-Ends, varint_case-Ends, skip_unknown-Ends,
}
use halborn.Wire.Ticket as TicketCodec
use halborn.Wire.RedeemRequest as RequestCodec
use halborn.Wire.TokenMeta as MetaCodec
use halborn.Wire.Params as ParamsCodec

-- Every case of a message's switch ends, with less left to read than where its tag began.
pub record CasesEnd {ℓ} {M : Type ℓ} (field : ℕ → ℕ → Cursor → Cursor → M → Result (M × Cursor))
    : Type ℓ where
  pub case-Ends :
      (num wire_type idx b : ℕ) (bs : Bytes) (c : Cursor) (m : M)
      → Moves (length (b ∷ bs)) idx c
      → Ends (λ p. length p.1.rest < length (b ∷ bs)) (field num wire_type (after idx (b ∷ bs)) c m)

module _ {ℓ} {M : Type ℓ} (field : ℕ → ℕ → Cursor → Cursor → M → Result (M × Cursor))
    (h : CasesEnd field) where
  unmarshal_loop-Ends :
      (fuel idx : ℕ) (rest : Bytes) (m : M)
      → length rest ≤ fuel
      → Ends (λ m'. Unit {0}) (unmarshal_loop field fuel m (after idx rest))
  unfolding unmarshal_loop
  unmarshal_loop-Ends zero idx [] m enough = returned m tt
  unmarshal_loop-Ends zero idx (b ∷ bs) m enough = absurd (omega arith)
  unmarshal_loop-Ends (suc fuel) idx [] m enough = returned m tt
  unmarshal_loop-Ends (suc fuel) idx (b ∷ bs) m enough =
      Ends-bind (read_varint-Ends 64 (after idx (b ∷ bs))) λ p k.
        let num = p.0 / 8 % 2 ^ 32 in
        Ends-then (p.0 % 8 == 4) end_group (
          Ends-then (num == 0 || leb (2 ^ 31) num) illegal_tag (
            Ends-bind (h.case-Ends num (p.0 % 8) idx b bs p.1 m k)
              λ q less. unmarshal_loop-Ends fuel q.1.idx q.1.rest q.0 (omega arith)))

  pub unmarshal_all-Ends : (m : M) (bs : Bytes) → Ends (λ m'. Unit {0}) (unmarshal_all field m bs)
  unfolding unmarshal_all
  unmarshal_all-Ends m bs = unmarshal_loop-Ends (length bs) 0 bs m (omega arith)

-- The cases that the messages have.
module _ {ℓ} {M : Type ℓ} {n idx : ℕ} (c : Cursor) (h : Moves n idx c) where
  bytes-case :
      (wire_type : ℕ) (read : Bytes → Result M)
      → ((s : Bytes) → Ends (λ m. Unit {0}) (read s))
      → Ends (λ p. length p.1.rest < n) (bytes_case wire_type read c)
  bytes-case wire_type read reads =
      Ends-map (λ p k. k.shorter) (bytes_case-Ends c h wire_type read reads)

  varint-case :
      (width wire_type : ℕ) (set : ℕ → M)
      → Ends (λ p. length p.1.rest < n) (varint_case width wire_type set c)
  varint-case width wire_type set =
      Ends-map (λ p k. k.shorter) (varint_case-Ends c h width wire_type set)

nested_or-Ends {ℓ κ} :
    {A : Type ℓ} {M : Type κ} (o : Option A) (set : A → M) → Ends (λ m. Unit {0}) (nested_or o set)
nested_or-Ends none set = failed _
nested_or-Ends (some a) set = returned (set a) tt

ticket-CasesEnd : CasesEnd TicketCodec.unmarshal_field
unfolding TicketCodec.unmarshal_field
ticket-CasesEnd = record {
  case-Ends = λ num wire_type idx b bs c m h.
      Ends-if (num == 1) (bytes-case c h wire_type _ (λ s. returned _ tt)) (
        Ends-if (num == 2) (bytes-case c h wire_type _ (λ s. returned _ tt)) (
          Ends-if (num == 3) (varint-case c h 64 wire_type _) (
            Ends-if (num == 4) (bytes-case c h wire_type _ (λ s. returned _ tt))
              (skip_unknown-Ends idx b bs m))));
}

meta-CasesEnd : CasesEnd MetaCodec.unmarshal_field
unfolding MetaCodec.unmarshal_field
meta-CasesEnd = record {
  case-Ends = λ num wire_type idx b bs c m h.
      Ends-if (num == 1) (bytes-case c h wire_type _ (λ s. returned _ tt)) (
        Ends-if (num == 2) (varint-case c h 32 wire_type _) (
          Ends-if (num == 3) (bytes-case c h wire_type _ (λ s. returned _ tt))
            (skip_unknown-Ends idx b bs m)));
}

meta-Ends : (m : TokenMeta) (bs : Bytes) → Ends (λ m'. Unit {0}) (MetaCodec.unmarshal m bs)
unfolding MetaCodec.unmarshal
meta-Ends m bs = unmarshal_all-Ends MetaCodec.unmarshal_field meta-CasesEnd m bs

module _ (g : Gogo) where
  request-CasesEnd : CasesEnd (RequestCodec.unmarshal_field g)
  unfolding RequestCodec.unmarshal_field
  request-CasesEnd = record {
    case-Ends = λ num wire_type idx b bs c m h.
        Ends-if (num == 1) (bytes-case c h wire_type _ (λ s. returned _ tt)) (
          Ends-if (num == 2) (bytes-case c h wire_type _ (λ s. nested_or-Ends _ _)) (
            Ends-if (num == 3) (bytes-case c h wire_type _ (λ s. nested_or-Ends _ _))
              (skip_unknown-Ends idx b bs m)));
  }

  params-CasesEnd : CasesEnd (ParamsCodec.unmarshal_field g)
  unfolding ParamsCodec.unmarshal_field
  params-CasesEnd = record {
    case-Ends = λ num wire_type idx b bs c m h.
        Ends-if (num == 1) (bytes-case c h wire_type _ (λ s. nested_or-Ends _ _)) (
          Ends-if (num == 2) (varint-case c h 32 wire_type _) (
            Ends-if (num == 3)
              (bytes-case c h wire_type _
                λ s. Ends-bind (meta-Ends m.collateral_metas s) λ t _. returned _ tt)
              (Ends-if (num == 4)
                (bytes-case c h wire_type _
                  λ s. Ends-bind (meta-Ends m.hal_meta s) λ t _. returned _ tt)
                (skip_unknown-Ends idx b bs m))));
  }

  -- Unmarshal of Ticket, RedeemRequest, Params and TokenMeta ends on every input, whatever the
  -- codecs of the nested fields return: the fuel that the model takes, the length of the input, is
  -- never used up, in the loop over fields, in skip, or in a nested message.
  pub unmarshal-ends :
      (bs : Bytes) (m : TokenMeta)
      → (TicketCodec.unmarshal bs ≢ stuck)
        × (RequestCodec.unmarshal g bs ≢ stuck)
        × (ParamsCodec.unmarshal g bs ≢ stuck)
        × (MetaCodec.unmarshal m bs ≢ stuck)
  unfolding TicketCodec.unmarshal RequestCodec.unmarshal ParamsCodec.unmarshal
  unmarshal-ends bs m = (
    Ends-not_stuck (unmarshal_all-Ends TicketCodec.unmarshal_field ticket-CasesEnd _ bs),
    Ends-not_stuck (unmarshal_all-Ends (RequestCodec.unmarshal_field g) request-CasesEnd _ bs),
    Ends-not_stuck (unmarshal_all-Ends (ParamsCodec.unmarshal_field g) params-CasesEnd _ bs),
    Ends-not_stuck (meta-Ends m bs),
  )
