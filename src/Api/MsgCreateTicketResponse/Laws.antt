-- ===== src/Api/MsgCreateTicketResponse/Laws.antt =====
-- The reflection of MsgCreateTicketResponse describes its fields.
use halborn.Prelude.{[], ◌≡◌, refl, ap, false, Option, some, List, ◌∷◌}
use halborn.Api.Outcome.{returns, ◌>>=◌}
use halborn.Api.Proto.{FieldDescriptor, Scalars, IsScalars}
use halborn.Api.Reflect.{Reflection, Callback, range_over}
use halborn.Api.Reflect.Laws.{
  IsReflection, copying, Copies, Copies-cons, Copies-nil, has-clear_all, zero_number,
}
use halborn.Api.MsgCreateTicketResponse.{
  MsgCreateTicketResponse, new_msg_create_ticket_response, Field, fd_id, field_of, full_name,
  has_field, clear_field, reflection, range, has, clear,
}

abbrev pub fields : List Field
fields = fd_id ∷ []

module _ {V : Type 0} (p : Scalars V) where
  pub reflection-IsReflection : IsReflection (reflection p)
  unfolding field_of
  reflection-IsReflection = record { named = named; has-clear_field = has-clear_field }
    where
      named : (f : Field) → field_of (full_name f) ≡ some f
      named fd_id = refl

      has-clear_field :
          (f : Field) (x : MsgCreateTicketResponse) → has_field f (clear_field f x) ≡ false
      has-clear_field fd_id x = refl

  pub has-clear_msg_create_ticket_response :
      (fd : FieldDescriptor) (x : Option MsgCreateTicketResponse)
      → (clear p fd x >>= λ m. has p fd (some m)) ≡ (clear p fd x >>= λ m. returns false)
  has-clear_msg_create_ticket_response = has-clear_all (reflection p) reflection-IsReflection

  pub range-over_msg_create_ticket_response :
      {S : Type 0} (f : Callback V S) (x : MsgCreateTicketResponse) (s : S)
      → range p f (some x) s ≡ returns (range_over (reflection p) fields f x s)
  unfolding range range_over
  range-over_msg_create_ticket_response f x s = refl

  pub copy_msg_create_ticket_response :
      IsScalars p
      → (x : MsgCreateTicketResponse)
      → range p (copying (reflection p)) (some x) (returns new_msg_create_ticket_response)
        ≡ returns (returns (record x { unknown_fields = [] }))
  unfolding range range_over
  copy_msg_create_ticket_response h x = ap returns (
      Copies.copied (
        Copies-cons r is_r x fd_id _ new_msg_create_ticket_response
          (record new_msg_create_ticket_response { id = x.id }) (rw (h.uint64-round x.id))
          (λ e. ap (λ s. record new_msg_create_ticket_response { id = s }) (zero_number x.id e))
          (Copies-nil r is_r x _)))
    where
      r : Reflection V Field MsgCreateTicketResponse
      r = reflection p

      is_r : IsReflection r
      is_r = reflection-IsReflection
