-- ===== src/Api/MsgCreateTicket/Laws.antt =====
-- The reflection of MsgCreateTicket describes its fields.
use halborn.Prelude.{[], ◌≡◌, refl, ap, false, Option, some, List, ◌∷◌}
use halborn.Api.Outcome.{returns, ◌>>=◌}
use halborn.Api.Proto.{FieldDescriptor, Scalars, IsScalars}
use halborn.Api.Reflect.{Reflection, Callback, range_over}
use halborn.Api.Reflect.Laws.{
  IsReflection, copying, Copies, Copies-cons, Copies-nil, has-clear_all, empty_string,
}
use halborn.Api.MsgCreateTicket.{
  MsgCreateTicket, new_msg_create_ticket, Field, fd_creator, fd_author, fd_issue, field_of,
  full_name, has_field, clear_field, reflection, range, has, clear,
}

abbrev pub fields : List Field
fields = fd_creator ∷ fd_author ∷ fd_issue ∷ []

module _ {V : Type 0} (p : Scalars V) where
  pub reflection-IsReflection : IsReflection (reflection p)
  unfolding field_of
  reflection-IsReflection = record { named = named; has-clear_field = has-clear_field }
    where
      named : (f : Field) → field_of (full_name f) ≡ some f
      named fd_creator = refl
      named fd_author = refl
      named fd_issue = refl

      has-clear_field : (f : Field) (x : MsgCreateTicket) → has_field f (clear_field f x) ≡ false
      has-clear_field fd_creator x = refl
      has-clear_field fd_author x = refl
      has-clear_field fd_issue x = refl

  pub has-clear_msg_create_ticket :
      (fd : FieldDescriptor) (x : Option MsgCreateTicket)
      → (clear p fd x >>= λ m. has p fd (some m)) ≡ (clear p fd x >>= λ m. returns false)
  has-clear_msg_create_ticket = has-clear_all (reflection p) reflection-IsReflection

  pub range-over_msg_create_ticket :
      {S : Type 0} (f : Callback V S) (x : MsgCreateTicket) (s : S)
      → range p f (some x) s ≡ returns (range_over (reflection p) fields f x s)
  unfolding range range_over
  range-over_msg_create_ticket f x s = refl

  pub copy_msg_create_ticket :
      IsScalars p
      → (x : MsgCreateTicket)
      → range p (copying (reflection p)) (some x) (returns new_msg_create_ticket)
        ≡ returns (returns (record x { unknown_fields = [] }))
  unfolding range range_over
  copy_msg_create_ticket h x = ap returns (
      Copies.copied (
        Copies-cons r is_r x fd_creator _ new_msg_create_ticket
          (record new_msg_create_ticket { creator = x.creator }) (rw (h.string-round x.creator))
          (λ e. ap (λ s. record new_msg_create_ticket { creator = s }) (empty_string x.creator e))
          (Copies-cons r is_r x fd_author _ _
            (record new_msg_create_ticket { creator = x.creator; author = x.author })
            (rw (h.string-round x.author))
            (λ e.
              ap (λ s. record new_msg_create_ticket { creator = x.creator; author = s })
                (empty_string x.author e))
            (Copies-cons r is_r x fd_issue _ _
              (record new_msg_create_ticket {
                creator = x.creator;
                author = x.author;
                issue = x.issue;
              })
              (rw (h.string-round x.issue))
              (λ e.
                ap
                  (λ s. record new_msg_create_ticket {
                    creator = x.creator;
                    author = x.author;
                    issue = s;
                  })
                  (empty_string x.issue e))
              (Copies-nil r is_r x _)))))
    where
      r : Reflection V Field MsgCreateTicket
      r = reflection p

      is_r : IsReflection r
      is_r = reflection-IsReflection
