-- ===== src/Api/MsgCreateTicket.antt =====
-- The reflection of MsgCreateTicket: api/halbornctf/hal/tx.pulsar.go.
pub mod Laws
pub mod Codec
pub mod RoundTrip
use halborn.Prelude.{
  ℕ, ◌%◌, ◌^◌, Bytes, [], codes, bytes_eq, ◌==◌, Bool, true, false, not, if◌then◌else◌, Option,
  none, some, List, ◌∷◌,
}
use halborn.Prelude.Int.{ℤ, pos}
use halborn.Api.Outcome.{Outcome, returns, panics, not_mutable, nil_pointer, ◌>>=◌, deref}
use halborn.Api.Proto.{
  FieldDescriptor, Scalars, Pointers, take_out, is_set, is_zero, wrap_i32, pointed,
}
use halborn.Api.Reflect as Reflect
use halborn.Api.Reflect.{Reflection, Callback, visit}

pub record MsgCreateTicket : Type 0 where
  pub creator : Bytes
  pub author : Bytes
  pub issue : Bytes
  pub unknown_fields : Bytes

-- `Reset`, and what `New` allocates
abbrev pub new_msg_create_ticket : MsgCreateTicket
new_msg_create_ticket = record { creator = []; author = []; issue = []; unknown_fields = [] }

pub data Field : Type 0 where
  fd_creator fd_author fd_issue : Field

abbrev pub full_name : Field → Bytes
full_name fd_creator = codes "halbornctf.hal.MsgCreateTicket.creator"
full_name fd_author = codes "halbornctf.hal.MsgCreateTicket.author"
full_name fd_issue = codes "halbornctf.hal.MsgCreateTicket.issue"

abbrev pub descriptor : Field → FieldDescriptor
descriptor f = record { full_name = full_name f; is_extension = false }

-- The labels of the cases.
unfoldable pub field_of : Bytes → Option Field
field_of name =
    if bytes_eq name (full_name fd_creator)
    then some fd_creator
    else (if bytes_eq name (full_name fd_author)
        then some fd_author
        else (if bytes_eq name (full_name fd_issue) then some fd_issue else none))

abbrev pub has_field : Field → MsgCreateTicket → Bool
has_field fd_creator x = not (bytes_eq x.creator [])
has_field fd_author x = not (bytes_eq x.author [])
has_field fd_issue x = not (bytes_eq x.issue [])

abbrev pub clear_field : Field → MsgCreateTicket → MsgCreateTicket
clear_field fd_creator x = record x { creator = [] }
clear_field fd_author x = record x { author = [] }
clear_field fd_issue x = record x { issue = [] }

-- The getters, which take nil as well.
abbrev pub get_creator : Option MsgCreateTicket → Bytes
get_creator none = []
get_creator (some x) = x.creator

abbrev pub get_author : Option MsgCreateTicket → Bytes
get_author none = []
get_author (some x) = x.author

abbrev pub get_issue : Option MsgCreateTicket → Bytes
get_issue none = []
get_issue (some x) = x.issue

abbrev pub get_unknown : Option MsgCreateTicket → Outcome Bytes
get_unknown x = do m ← deref x; returns m.unknown_fields

abbrev pub set_unknown : Option MsgCreateTicket → Bytes → Outcome MsgCreateTicket
set_unknown x raw = do m ← deref x; returns (record m { unknown_fields = raw })

module _ {V : Type 0} (p : Scalars V) where
  abbrev pub get_field : Field → MsgCreateTicket → V
  get_field fd_creator x = p.value_of_string x.creator
  get_field fd_author x = p.value_of_string x.author
  get_field fd_issue x = p.value_of_string x.issue

  abbrev pub set_field : Field → V → Option MsgCreateTicket → Outcome MsgCreateTicket
  set_field fd_creator value x = do
    v ← take_out p.as_string value
    m ← deref x
    returns (record m { creator = v })
  set_field fd_author value x = do
    v ← take_out p.as_string value
    m ← deref x
    returns (record m { author = v })
  set_field fd_issue value x = do
    v ← take_out p.as_string value
    m ← deref x
    returns (record m { issue = v })

  abbrev pub mutable_field : Field → Option MsgCreateTicket → Outcome (V × MsgCreateTicket)
  mutable_field fd_creator x = panics not_mutable
  mutable_field fd_author x = panics not_mutable
  mutable_field fd_issue x = panics not_mutable

  abbrev pub new_value : Field → V
  new_value fd_creator = p.value_of_string []
  new_value fd_author = p.value_of_string []
  new_value fd_issue = p.value_of_string []

  abbrev pub reflection : Reflection V Field MsgCreateTicket
  reflection = record {
    field_of = field_of;
    descriptor = descriptor;
    has_field = has_field;
    clear_field = clear_field;
    get_field = get_field;
    set_field = set_field;
    mutable_field = mutable_field;
    new_value = new_value;
  }

  abbrev pub has : FieldDescriptor → Option MsgCreateTicket → Outcome Bool
  has fd x = Reflect.has reflection fd x

  abbrev pub clear : FieldDescriptor → Option MsgCreateTicket → Outcome MsgCreateTicket
  clear fd x = Reflect.clear reflection fd x

  abbrev pub get : FieldDescriptor → Option MsgCreateTicket → Outcome V
  get fd x = Reflect.get reflection fd x

  abbrev pub set : FieldDescriptor → V → Option MsgCreateTicket → Outcome MsgCreateTicket
  set fd value x = Reflect.set reflection fd value x

  abbrev pub mutable : FieldDescriptor → Option MsgCreateTicket → Outcome (V × MsgCreateTicket)
  mutable fd x = Reflect.mutable reflection fd x

  abbrev pub new_field : FieldDescriptor → Outcome V
  new_field fd = Reflect.new_field reflection fd

  -- A receiver that is nil is read at once.
  unfoldable pub range : {S : Type 0} → Callback V S → Option MsgCreateTicket → S → Outcome S
  unfolding visit
  range f none s = panics nil_pointer
  range f (some x) s = returns (
      visit f (not (bytes_eq x.creator [])) (descriptor fd_creator) (p.value_of_string x.creator)
        (visit f (not (bytes_eq x.author [])) (descriptor fd_author) (p.value_of_string x.author) (
          visit f (not (bytes_eq x.issue [])) (descriptor fd_issue) (p.value_of_string x.issue)
            (λ t. t)))
        s)
