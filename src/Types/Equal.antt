-- ===== src/Types/Equal.antt =====
-- Params.Equal and TokenMeta.Equal of x/hal/types/params.pb.go.
use halborn.Prelude.{
  ◌≡◌, ◌↔◌, refl, arith, Bool, true, false, ◌&&◌, ◌==◌, ==_iff, bytes_eq, bytes_eq→eq,
  bytes_eq_refl, Option, none, some,
}
use halborn.Prelude.Int.{ℤ, pos, negsuc}
use halborn.Types.Params.{Params, TokenMeta}

-- What an `interface{}` holds: nil, a pointer of the type, a value of it, or something else.
pub data That (A : Type 0) : Type 0 where
  nil_interface : That A
  pointer : Option A → That A
  value : A → That A
  other_type : That A

abbrev eq_ℤ : ℤ → ℤ → Bool
eq_ℤ (pos m) (pos n) = m == n
eq_ℤ (pos m) (negsuc n) = false
eq_ℤ (negsuc m) (pos n) = false
eq_ℤ (negsuc m) (negsuc n) = m == n

abbrev is_nil : {A : Type 0} → Option A → Bool
is_nil none = true
is_nil (some a) = false

-- The comparison of two pointers, the second of which may be nil as well.
abbrev equal_pointers : {A : Type 0} → (A → A → Bool) → Option A → Option A → Bool
equal_pointers same this none = is_nil this
equal_pointers same none (some b) = false
equal_pointers same (some a) (some b) = same a b

-- What both begin with, up to the comparison of the fields.
abbrev equal_that : {A : Type 0} → (A → A → Bool) → Option A → That A → Bool
equal_that same this nil_interface = is_nil this
equal_that same this (pointer p) = equal_pointers same this p
equal_that same this (value b) = equal_pointers same this (some b)
equal_that same this other_type = false

abbrev same_token_meta : TokenMeta → TokenMeta → Bool
same_token_meta a b =
    bytes_eq a.denom b.denom && (a.decimals == b.decimals) && bytes_eq a.description b.description

unfoldable pub token_meta_equal : Option TokenMeta → That TokenMeta → Bool
token_meta_equal this that = equal_that same_token_meta this that

-- The fields that are messages are compared by `this.X.Equal(&that1.X)`.
abbrev same_params : Params → Params → Bool
same_params a b =
    eq_ℤ a.redeem_dur b.redeem_dur
    && eq_ℤ a.max_redeem_entries b.max_redeem_entries
    && token_meta_equal (some a.collateral_metas) (pointer (some b.collateral_metas))
    && token_meta_equal (some a.hal_meta) (pointer (some b.hal_meta))

unfoldable pub params_equal : Option Params → That Params → Bool
unfolding token_meta_equal
params_equal this that = equal_that same_params this that

eq_ℤ-refl : (a : ℤ) → eq_ℤ a a ≡ true
eq_ℤ-refl (pos n) = ground arith
eq_ℤ-refl (negsuc n) = ground arith

eq_ℤ→eq : (a b : ℤ) → eq_ℤ a b ≡ true → a ≡ b
eq_ℤ→eq (pos m) (pos n) h = ground arith
eq_ℤ→eq (pos m) (negsuc n) h = ground arith
eq_ℤ→eq (negsuc m) (pos n) h = ground arith
eq_ℤ→eq (negsuc m) (negsuc n) h = ground arith

both : (s t : Bool) → s && t ≡ true → (s ≡ true) × (t ≡ true)
both true true h = (refl, refl)
both true false h = (refl, h)
both false t h = let no : ⊥ = ground (arith, h) in elim no [ ]

same_token_meta_refl : (a : TokenMeta) → same_token_meta a a ≡ true
same_token_meta_refl a = rw (bytes_eq_refl a.denom, bytes_eq_refl a.description) (ground arith)

same_token_meta→eq : (a b : TokenMeta) → same_token_meta a b ≡ true → a ≡ b
same_token_meta→eq a b h =
    let (h12, h3) = both _ _ h in
    let (h1, h2) = both _ _ h12 in
    let d : a.decimals ≡ b.decimals = (==_iff a.decimals b.decimals).0 h2 in
    λ i. record {
      denom = bytes_eq→eq a.denom b.denom h1 i;
      decimals = d i;
      description = bytes_eq→eq a.description b.description h3 i;
    }

same_params_refl : (a : Params) → same_params a a ≡ true
unfolding token_meta_equal
same_params_refl a = rw (
  eq_ℤ-refl a.redeem_dur,
  eq_ℤ-refl a.max_redeem_entries,
  same_token_meta_refl a.collateral_metas,
  same_token_meta_refl a.hal_meta,
)

same_params→eq : (a b : Params) → same_params a b ≡ true → a ≡ b
unfolding token_meta_equal
same_params→eq a b h =
    let (h123, h4) = both _ _ h in
    let (h12, h3) = both _ _ h123 in
    let (h1, h2) = both _ _ h12 in
    λ i. record {
      redeem_dur = eq_ℤ→eq a.redeem_dur b.redeem_dur h1 i;
      max_redeem_entries = eq_ℤ→eq a.max_redeem_entries b.max_redeem_entries h2 i;
      collateral_metas = same_token_meta→eq a.collateral_metas b.collateral_metas h3 i;
      hal_meta = same_token_meta→eq a.hal_meta b.hal_meta h4 i;
    }

same_params_iff : (a b : Params) → (same_params a b ≡ true) ↔ (a ≡ b)
same_params_iff a b = (same_params→eq a b, λ e. rw e (same_params_refl b))

-- Params.Equal of two parameters, the second given as a value or as a pointer, holds exactly if
-- they are the same.
pub params_equal_iff :
    (a b : Params)
    → ((params_equal (some a) (value b) ≡ true) ↔ (a ≡ b))
      × ((params_equal (some a) (pointer (some b)) ≡ true) ↔ (a ≡ b))
unfolding params_equal token_meta_equal
params_equal_iff a b = (same_params_iff a b, same_params_iff a b)
