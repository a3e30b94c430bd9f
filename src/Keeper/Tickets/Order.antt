-- ===== src/Keeper/Tickets/Order.antt =====
-- The order in which the metadata of a ticket is visited.
use halborn.Prelude.{
  ℕ, ◌==◌, ◌≡◌, ◌≢◌, ◌∙◌, ◌⊎◌, inl, inr, refl, sym, ap, Bytes, codes, List, [], ◌∷◌, ◌++◌,
  if◌then◌else◌,
}
use mathlib.Core.List.{append_cancel_left}
use halborn.Types.Records.{Ticket}
use halborn.Sdk.Env.{Sdk}
use halborn.Keeper.State.{Context}
use halborn.Keeper.Tickets.{metadata, completed}
use halborn.Keeper.Tickets.Info.{line, lines, append_metadata-lines}

abbrev pub IsOneOf : {A : Type 0} → List A → A → Type 0
IsOneOf [] e = ⊥
IsOneOf (a ∷ m) e = (e ≡ a) ⊎ IsOneOf m e

-- What is visited are entries of the map, in any order.
abbrev pub AreFrom : {A : Type 0} → List A → List A → Type 0
AreFrom m [] = Unit
AreFrom m (e ∷ es) = IsOneOf m e × AreFrom m es

-- The first letter of the key of the line that stands first.
abbrev second : Bytes → ℕ
second (a ∷ b ∷ rest) = b
second _ = 0

abbrev pub reversed_three : List (Bytes × Bytes) → List (Bytes × Bytes)
reversed_three (a ∷ b ∷ c ∷ rest) = c ∷ b ∷ a ∷ rest
reversed_three es = es

module _ (x : Sdk) (ctx : Context) where
  -- The three keys differ in their first letter.
  pick : ℕ → Bytes × Bytes
  pick n =
      if n == 115
      then (codes "status", codes "Creater")
      else if n == 116
      then (codes "timestamp", x.time_string ctx.block_time)
      else (codes "chain ID", ctx.chain_id)

  pick-line :
      (e : Bytes × Bytes) (rest : Bytes)
      → IsOneOf (metadata x ctx) e
      → pick (second (line e ++ rest)) ≡ e
  unfolding pick
  pick-line e rest (inl is_e) = rw is_e
  pick-line e rest (inr (inl is_e)) = rw is_e
  pick-line e rest (inr (inr (inl is_e))) = rw is_e
  pick-line e rest (inr (inr (inr absurd_case))) = elim absurd_case [ ]

  line-ne-nil : (e : Bytes × Bytes) (rest : Bytes) → [] ≢ line e ++ rest
  line-ne-nil e rest h = cc

  -- The lines determine the entries and their order.
  lines-injective :
      (es es' : List (Bytes × Bytes))
      → AreFrom (metadata x ctx) es
      → AreFrom (metadata x ctx) es'
      → lines es ≡ lines es'
      → es ≡ es'
  lines-injective [] [] h h' same = refl
  lines-injective [] (e' ∷ es') h h' same = elim (line-ne-nil e' (lines es') same) [ ]
  lines-injective (e ∷ es) [] h h' same = elim (line-ne-nil e (lines es) (sym same)) [ ]
  lines-injective (e ∷ es) (e' ∷ es') (is_e, h) (is_e', h') same =
      let first : e ≡ e' =
        sym (pick-line e (lines es) is_e)
        ∙ ap (λ t. pick (second t)) same
        ∙ pick-line e' (lines es') is_e' in
      let rest : lines es ≡ lines es' =
        append_cancel_left (line e) _ _ (same ∙ ap (λ f. line f ++ lines es') (sym first)) in
      ap (λ f. f ∷ es) first ∙ ap (λ fs. e' ∷ fs) (lines-injective es es' h h' rest)

module _ (x : Sdk) where
  -- Two machines that visit entries of the map of the metadata, and not the same ones in the same
  -- order, make two different tickets of the same message in the same block.
  pub completed-order :
      (ctx : Context) (visit visit' : List (Bytes × Bytes) → List (Bytes × Bytes)) (post : Ticket)
      (count : ℕ)
      → AreFrom (metadata x ctx) (visit (metadata x ctx))
      → AreFrom (metadata x ctx) (visit' (metadata x ctx))
      → visit (metadata x ctx) ≢ visit' (metadata x ctx)
      → completed x (record ctx { visit = visit }) post count
        ≢ completed x (record ctx { visit = visit' }) post count
  completed-order ctx visit visit' post count h h' differ same = differ (
      lines-injective x ctx _ _ h h' (
        append_cancel_left post.additional_info _ _ (
          sym (append_metadata-lines post.additional_info (visit (metadata x ctx)))
          ∙ ap (λ t. t.additional_info) same
          ∙ append_metadata-lines post.additional_info (visit' (metadata x ctx)))))
