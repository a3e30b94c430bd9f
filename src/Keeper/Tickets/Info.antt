-- ===== src/Keeper/Tickets/Info.antt =====
-- The ticket that AppendTicket is to store, described without its loop over the metadata.
use halborn.Prelude.{ℕ, ◌≡◌, ◌∙◌, sym, ap, Bytes, codes, List, [], ◌∷◌, ◌++◌}
use mathlib.Core.List.{append_assoc, append-nil}
use halborn.Types.Records.{Ticket}
use halborn.Sdk.Env.{Sdk}
use halborn.Keeper.State.{Context}
use halborn.Keeper.Tickets.{append_metadata, completed}

-- An entry of the metadata on a line of its own.
abbrev pub line : Bytes × Bytes → Bytes
line (key, value) = codes "\n" ++ key ++ codes ": " ++ value

abbrev pub lines : List (Bytes × Bytes) → Bytes
lines [] = []
lines (e ∷ es) = line e ++ lines es

entry :
    (info key value : Bytes)
    → info ++ codes "\n" ++ key ++ codes ": " ++ value ≡ info ++ line (key, value)
entry info key value =
    append_assoc (info ++ codes "\n" ++ key) (codes ": ") value
    ∙ append_assoc (info ++ codes "\n") key (codes ": " ++ value)
    ∙ append_assoc info (codes "\n") (key ++ (codes ": " ++ value))
    ∙ ap (λ t. info ++ (codes "\n" ++ t)) (sym (append_assoc key (codes ": ") value))

-- What the loop adds is added behind what was there, line by line.
pub append_metadata-lines :
    (info : Bytes) (es : List (Bytes × Bytes)) → append_metadata info es ≡ info ++ lines es
append_metadata-lines info [] = sym (append-nil info)
append_metadata-lines info ((key, value) ∷ es) =
    ap (λ t. append_metadata t es) (entry info key value)
    ∙ append_metadata-lines (info ++ line (key, value)) es
    ∙ append_assoc info (line (key, value)) (lines es)

module _ (x : Sdk) where
  -- The ticket with the id `count`, and with the status, the block's time and the chain's name on
  -- lines of their own, in the order in which the machine visits them.
  abbrev pub stored_ticket : Context → Ticket → ℕ → Ticket
  stored_ticket ctx post count = record {
    author = post.author;
    issue = post.issue;
    id = count;
    additional_info =
        post.additional_info
        ++ lines (
            ctx.visit (
              (codes "status", codes "Creater")
              ∷ (codes "timestamp", x.time_string ctx.block_time)
              ∷ (codes "chain ID", ctx.chain_id)
              ∷ []));
  }

  pub completed-stored :
      (ctx : Context) (post : Ticket) (count : ℕ)
      → completed x ctx post count ≡ stored_ticket ctx post count
  completed-stored ctx post count =
      ap (λ info. record (stored_ticket ctx post count) { additional_info = info })
        (append_metadata-lines post.additional_info _)
