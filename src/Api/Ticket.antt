-- ===== src/Api/Ticket.antt =====
-- The reflection of Ticket: api/halbornctf/hal/tickets.pulsar.go.
pub mod Laws
pub mod Codec
pub mod RoundTrip
pub mod Interop
use halborn.Prelude.{
  ℕ, ◌%◌, ◌^◌, Bytes, [], codes, bytes_eq, ◌==◌, Bool, true, false, not, if◌then◌else◌, Option,
  none, some, List, ◌∷◌,
}
use halborn.Prelude.Int.{ℤ, pos}
use halborn.Api.Outcome.{Outcome, returns, panics, not_mutable, nil_pointer, ◌>>=◌, deref}
use halborn.Api.Proto.{
  FieldDescriptor, Scalars, Pointers, take_out, is_set, is_zero, wrap_i32, pointed,
}
use halborn.Api.Reflect as Reflect
use halborn.Api.Reflect.{Reflection, Callback, visit}

pub record Ticket : Type 0 where
  pub author : Bytes
  pub issue : Bytes
  pub id : ℕ
  pub additional_info : Bytes
  pub unknown_fields : Bytes

-- `Reset`, and what `New` allocates
abbrev pub new_ticket : Ticket
new_ticket = record { author = []; issue = []; id = 0; additional_info = []; unknown_fields = [] }

pub data Field : Type 0 where
  fd_author fd_issue fd_id fd_additional_info : Field

abbrev pub full_name : Field → Bytes
full_name fd_author = codes "halbornctf.hal.Ticket.author"
full_name fd_issue = codes "halbornctf.hal.Ticket.issue"
full_name fd_id = codes "halbornctf.hal.Ticket.id"
full_name fd_additional_info = codes "halbornctf.hal.Ticket.additionalInfo"

abbrev pub descriptor : Field → FieldDescriptor
descriptor f = record { full_name = full_name f; is_extension = false }

-- The labels of the cases.
unfoldable pub field_of : Bytes → Option Field
field_of name =
    if bytes_eq name (full_name fd_author)
    then some fd_author
    else (if bytes_eq name (full_name fd_issue)
        then some fd_issue
        else (if bytes_eq name (full_name fd_id)
            then some fd_id
            else (if bytes_eq name (full_name fd_additional_info)
                then some fd_additional_info
                else none)))

abbrev pub has_field : Field → Ticket → Bool
has_field fd_author x = not (bytes_eq x.author [])
has_field fd_issue x = not (bytes_eq x.issue [])
has_field fd_id x = not (x.id == 0)
has_field fd_additional_info x = not (bytes_eq x.additional_info [])

abbrev pub clear_field : Field → Ticket → Ticket
clear_field fd_author x = record x { author = [] }
clear_field fd_issue x = record x { issue = [] }
clear_field fd_id x = record x { id = 0 }
clear_field fd_additional_info x = record x { additional_info = [] }

-- The getters, which take nil as well.
abbrev pub get_author : Option Ticket → Bytes
get_author none = []
get_author (some x) = x.author

abbrev pub get_issue : Option Ticket → Bytes
get_issue none = []
get_issue (some x) = x.issue

abbrev pub get_id : Option Ticket → ℕ
get_id none = 0
get_id (some x) = x.id

abbrev pub get_additional_info : Option Ticket → Bytes
get_additional_info none = []
get_additional_info (some x) = x.additional_info

abbrev pub get_unknown : Option Ticket → Outcome Bytes
get_unknown x = do m ← deref x; returns m.unknown_fields

abbrev pub set_unknown : Option Ticket → Bytes → Outcome Ticket
set_unknown x raw = do m ← deref x; returns (record m { unknown_fields = raw })

module _ {V : Type 0} (p : Scalars V) where
  abbrev pub get_field : Field → Ticket → V
  get_field fd_author x = p.value_of_string x.author
  get_field fd_issue x = p.value_of_string x.issue
  get_field fd_id x = p.value_of_uint64 x.id
  get_field fd_additional_info x = p.value_of_string x.additional_info

  abbrev pub set_field : Field → V → Option Ticket → Outcome Ticket
  set_field fd_author value x = do
    v ← take_out p.as_string value
    m ← deref x
    returns (record m { author = v })
  set_field fd_issue value x = do
    v ← take_out p.as_string value
    m ← deref x
    returns (record m { issue = v })
  set_field fd_id value x = do
    v ← take_out p.as_uint value
    m ← deref x
    returns (record m { id = v })
  set_field fd_additional_info value x = do
    v ← take_out p.as_string value
    m ← deref x
    returns (record m { additional_info = v })

  abbrev pub mutable_field : Field → Option Ticket → Outcome (V × Ticket)
  mutable_field fd_author x = panics not_mutable
  mutable_field fd_issue x = panics not_mutable
  mutable_field fd_id x = panics not_mutable
  mutable_field fd_additional_info x = panics not_mutable

  abbrev pub new_value : Field → V
  new_value fd_author = p.value_of_string []
  new_value fd_issue = p.value_of_string []
  new_value fd_id = p.value_of_uint64 0
  new_value fd_additional_info = p.value_of_string []

  abbrev pub reflection : Reflection V Field Ticket
  reflection = record {
    field_of = field_of;
    descriptor = descriptor;
    has_field = has_field;
    clear_field = clear_field;
    get_field = get_field;
    set_field = set_field;
    mutable_field = mutable_field;
    new_value = new_value;
  }

  abbrev pub has : FieldDescriptor → Option Ticket → Outcome Bool
  has fd x = Reflect.has reflection fd x

  abbrev pub clear : FieldDescriptor → Option Ticket → Outcome Ticket
  clear fd x = Reflect.clear reflection fd x

  abbrev pub get : FieldDescriptor → Option Ticket → Outcome V
  get fd x = Reflect.get reflection fd x

  abbrev pub set : FieldDescriptor → V → Option Ticket → Outcome Ticket
  set fd value x = Reflect.set reflection fd value x

  abbrev pub mutable : FieldDescriptor → Option Ticket → Outcome (V × Ticket)
  mutable fd x = Reflect.mutable reflection fd x

  abbrev pub new_field : FieldDescriptor → Outcome V
  new_field fd = Reflect.new_field reflection fd

  -- A receiver that is nil is read at once.
  unfoldable pub range : {S : Type 0} → Callback V S → Option Ticket → S → Outcome S
  unfolding visit
  range f none s = panics nil_pointer
  range f (some x) s = returns (
      visit f (not (bytes_eq x.author [])) (descriptor fd_author) (p.value_of_string x.author)
        (visit f (not (bytes_eq x.issue [])) (descriptor fd_issue) (p.value_of_string x.issue) (
          visit f (not (x.id == 0)) (descriptor fd_id) (p.value_of_uint64 x.id) (
            visit f (not (bytes_eq x.additional_info [])) (descriptor fd_additional_info)
              (p.value_of_string x.additional_info) (λ t. t))))
        s)
