-- ===== src/Api/MsgCreateTicketResponse.antt =====
-- The reflection of MsgCreateTicketResponse: api/halbornctf/hal/tx.pulsar.go.
pub mod Laws
pub mod Codec
pub mod RoundTrip
use halborn.Prelude.{
  ℕ, ◌%◌, ◌^◌, Bytes, [], codes, bytes_eq, ◌==◌, Bool, true, false, not, if◌then◌else◌, Option,
  none, some, List, ◌∷◌,
}
use halborn.Prelude.Int.{ℤ, pos}
use halborn.Api.Outcome.{Outcome, returns, panics, not_mutable, nil_pointer, ◌>>=◌, deref}
use halborn.Api.Proto.{
  FieldDescriptor, Scalars, Pointers, take_out, is_set, is_zero, wrap_i32, pointed,
}
use halborn.Api.Reflect as Reflect
use halborn.Api.Reflect.{Reflection, Callback, visit}

pub record MsgCreateTicketResponse : Type 0 where
  pub id : ℕ
  pub unknown_fields : Bytes

-- `Reset`, and what `New` allocates
abbrev pub new_msg_create_ticket_response : MsgCreateTicketResponse
new_msg_create_ticket_response = record { id = 0; unknown_fields = [] }

pub data Field : Type 0 where
  fd_id : Field

abbrev pub full_name : Field → Bytes
full_name fd_id = codes "halbornctf.hal.MsgCreateTicketResponse.id"

abbrev pub descriptor : Field → FieldDescriptor
descriptor f = record { full_name = full_name f; is_extension = false }

-- The labels of the cases.
unfoldable pub field_of : Bytes → Option Field
field_of name = if bytes_eq name (full_name fd_id) then some fd_id else none

abbrev pub has_field : Field → MsgCreateTicketResponse → Bool
has_field fd_id x = not (x.id == 0)

abbrev pub clear_field : Field → MsgCreateTicketResponse → MsgCreateTicketResponse
clear_field fd_id x = record x { id = 0 }

-- The getters, which take nil as well.
abbrev pub get_id : Option MsgCreateTicketResponse → ℕ
get_id none = 0
get_id (some x) = x.id

abbrev pub get_unknown : Option MsgCreateTicketResponse → Outcome Bytes
get_unknown x = do m ← deref x; returns m.unknown_fields

abbrev pub set_unknown : Option MsgCreateTicketResponse → Bytes → Outcome MsgCreateTicketResponse
set_unknown x raw = do m ← deref x; returns (record m { unknown_fields = raw })

module _ {V : Type 0} (p : Scalars V) where
  abbrev pub get_field : Field → MsgCreateTicketResponse → V
  get_field fd_id x = p.value_of_uint64 x.id

  abbrev pub set_field :
      Field → V → Option MsgCreateTicketResponse → Outcome MsgCreateTicketResponse
  set_field fd_id value x = do
    v ← take_out p.as_uint value
    m ← deref x
    returns (record m { id = v })

  abbrev pub mutable_field :
      Field → Option MsgCreateTicketResponse → Outcome (V × MsgCreateTicketResponse)
  mutable_field fd_id x = panics not_mutable

  abbrev pub new_value : Field → V
  new_value fd_id = p.value_of_uint64 0

  abbrev pub reflection : Reflection V Field MsgCreateTicketResponse
  reflection = record {
    field_of = field_of;
    descriptor = descriptor;
    has_field = has_field;
    clear_field = clear_field;
    get_field = get_field;
    set_field = set_field;
    mutable_field = mutable_field;
    new_value = new_value;
  }

  abbrev pub has : FieldDescriptor → Option MsgCreateTicketResponse → Outcome Bool
  has fd x = Reflect.has reflection fd x

  abbrev pub clear :
      FieldDescriptor → Option MsgCreateTicketResponse → Outcome MsgCreateTicketResponse
  clear fd x = Reflect.clear reflection fd x

  abbrev pub get : FieldDescriptor → Option MsgCreateTicketResponse → Outcome V
  get fd x = Reflect.get reflection fd x

  abbrev pub set :
      FieldDescriptor → V → Option MsgCreateTicketResponse → Outcome MsgCreateTicketResponse
  set fd value x = Reflect.set reflection fd value x

  abbrev pub mutable :
      FieldDescriptor → Option MsgCreateTicketResponse → Outcome (V × MsgCreateTicketResponse)
  mutable fd x = Reflect.mutable reflection fd x

  abbrev pub new_field : FieldDescriptor → Outcome V
  new_field fd = Reflect.new_field reflection fd

  -- A receiver that is nil is read at once.
  unfoldable pub range :
      {S : Type 0} → Callback V S → Option MsgCreateTicketResponse → S → Outcome S
  unfolding visit
  range f none s = panics nil_pointer
  range f (some x) s =
      returns (visit f (not (x.id == 0)) (descriptor fd_id) (p.value_of_uint64 x.id) (λ t. t) s)
