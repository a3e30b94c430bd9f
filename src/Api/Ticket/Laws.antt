-- ===== src/Api/Ticket/Laws.antt =====
-- The reflection of Ticket describes its fields.
use halborn.Prelude.{[], ◌≡◌, refl, ap, false, Option, some, List, ◌∷◌}
use halborn.Api.Outcome.{returns, ◌>>=◌}
use halborn.Api.Proto.{FieldDescriptor, Scalars, IsScalars}
use halborn.Api.Reflect.{Reflection, Callback, range_over}
use halborn.Api.Reflect.Laws.{
  IsReflection, copying, Copies, Copies-cons, Copies-nil, has-clear_all, empty_string, zero_number,
}
use halborn.Api.Ticket.{
  Ticket, new_ticket, Field, fd_author, fd_issue, fd_id, fd_additional_info, field_of, full_name,
  has_field, clear_field, reflection, range, has, clear,
}

abbrev pub fields : List Field
fields = fd_author ∷ fd_issue ∷ fd_id ∷ fd_additional_info ∷ []

module _ {V : Type 0} (p : Scalars V) where
  pub reflection-IsReflection : IsReflection (reflection p)
  unfolding field_of
  reflection-IsReflection = record { named = named; has-clear_field = has-clear_field }
    where
      named : (f : Field) → field_of (full_name f) ≡ some f
      named fd_author = refl
      named fd_issue = refl
      named fd_id = refl
      named fd_additional_info = refl

      has-clear_field : (f : Field) (x : Ticket) → has_field f (clear_field f x) ≡ false
      has-clear_field fd_author x = refl
      has-clear_field fd_issue x = refl
      has-clear_field fd_id x = refl
      has-clear_field fd_additional_info x = refl

  pub has-clear_ticket :
      (fd : FieldDescriptor) (x : Option Ticket)
      → (clear p fd x >>= λ m. has p fd (some m)) ≡ (clear p fd x >>= λ m. returns false)
  has-clear_ticket = has-clear_all (reflection p) reflection-IsReflection

  pub range-over_ticket :
      {S : Type 0} (f : Callback V S) (x : Ticket) (s : S)
      → range p f (some x) s ≡ returns (range_over (reflection p) fields f x s)
  unfolding range range_over
  range-over_ticket f x s = refl

  pub copy_ticket :
      IsScalars p
      → (x : Ticket)
      → range p (copying (reflection p)) (some x) (returns new_ticket)
        ≡ returns (returns (record x { unknown_fields = [] }))
  unfolding range range_over
  copy_ticket h x = ap returns (
      Copies.copied (
        Copies-cons r is_r x fd_author _ new_ticket (record new_ticket { author = x.author })
          (rw (h.string-round x.author))
          (λ e. ap (λ s. record new_ticket { author = s }) (empty_string x.author e))
          (Copies-cons r is_r x fd_issue _ _
            (record new_ticket { author = x.author; issue = x.issue }) (rw (h.string-round x.issue))
            (λ e.
              ap (λ s. record new_ticket { author = x.author; issue = s }) (empty_string x.issue e))
            (Copies-cons r is_r x fd_id _ _
              (record new_ticket { author = x.author; issue = x.issue; id = x.id })
              (rw (h.uint64-round x.id))
              (λ e.
                ap (λ s. record new_ticket { author = x.author; issue = x.issue; id = s })
                  (zero_number x.id e))
              (Copies-cons r is_r x fd_additional_info _ _
                (record new_ticket {
                  author = x.author;
                  issue = x.issue;
                  id = x.id;
                  additional_info = x.additional_info;
                })
                (rw (h.string-round x.additional_info))
                (λ e.
                  ap
                    (λ s. record new_ticket {
                      author = x.author;
                      issue = x.issue;
                      id = x.id;
                      additional_info = s;
                    })
                    (empty_string x.additional_info e))
                (Copies-nil r is_r x _))))))
    where
      r : Reflection V Field Ticket
      r = reflection p

      is_r : IsReflection r
      is_r = reflection-IsReflection
