-- ===== src/Api/RedeemRequest.antt =====
-- The reflection of RedeemRequest: api/halbornctf/hal/redeem_request.pulsar.go.
pub mod Laws
pub mod Codec
pub mod RoundTrip
use halborn.Prelude.{
  ℕ, ◌%◌, ◌^◌, Bytes, [], codes, bytes_eq, ◌==◌, Bool, true, false, not, if◌then◌else◌, Option,
  none, some, List, ◌∷◌,
}
use halborn.Prelude.Int.{ℤ, pos}
use halborn.Api.Outcome.{Outcome, returns, panics, not_mutable, nil_pointer, ◌>>=◌, deref}
use halborn.Api.Proto.{
  FieldDescriptor, Scalars, Pointers, take_out, is_set, is_zero, wrap_i32, pointed,
}
use halborn.Api.Reflect as Reflect
use halborn.Api.Reflect.{Reflection, Callback, visit}

pub record RedeemRequest (Coin Timestamp : Type 0) : Type 0 where
  pub account : Bytes
  pub collateral : Option Coin
  pub completiontime : Option Timestamp
  pub unknown_fields : Bytes

-- `Reset`, and what `New` allocates
abbrev pub new_redeem_request : {Coin Timestamp : Type 0} → RedeemRequest Coin Timestamp
new_redeem_request = record {
  account = [];
  collateral = none;
  completiontime = none;
  unknown_fields = [];
}

pub data Field : Type 0 where
  fd_account fd_collateral fd_completiontime : Field

abbrev pub full_name : Field → Bytes
full_name fd_account = codes "halbornctf.hal.RedeemRequest.account"
full_name fd_collateral = codes "halbornctf.hal.RedeemRequest.collateral"
full_name fd_completiontime = codes "halbornctf.hal.RedeemRequest.completiontime"

abbrev pub descriptor : Field → FieldDescriptor
descriptor f = record { full_name = full_name f; is_extension = false }

-- The labels of the cases.
unfoldable pub field_of : Bytes → Option Field
field_of name =
    if bytes_eq name (full_name fd_account)
    then some fd_account
    else (if bytes_eq name (full_name fd_collateral)
        then some fd_collateral
        else (if bytes_eq name (full_name fd_completiontime) then some fd_completiontime else none))

module _ {Coin Timestamp : Type 0} where
  abbrev pub has_field : Field → RedeemRequest Coin Timestamp → Bool
  has_field fd_account x = not (bytes_eq x.account [])
  has_field fd_collateral x = is_set x.collateral
  has_field fd_completiontime x = is_set x.completiontime

  abbrev pub clear_field : Field → RedeemRequest Coin Timestamp → RedeemRequest Coin Timestamp
  clear_field fd_account x = record x { account = [] }
  clear_field fd_collateral x = record x { collateral = none }
  clear_field fd_completiontime x = record x { completiontime = none }

  -- The getters, which take nil as well.
  abbrev pub get_account : Option (RedeemRequest Coin Timestamp) → Bytes
  get_account none = []
  get_account (some x) = x.account

  abbrev pub get_collateral : Option (RedeemRequest Coin Timestamp) → Option Coin
  get_collateral none = none
  get_collateral (some x) = x.collateral

  abbrev pub get_completiontime : Option (RedeemRequest Coin Timestamp) → Option Timestamp
  get_completiontime none = none
  get_completiontime (some x) = x.completiontime

  abbrev pub get_unknown : Option (RedeemRequest Coin Timestamp) → Outcome Bytes
  get_unknown x = do m ← deref x; returns m.unknown_fields

  abbrev pub set_unknown :
      Option (RedeemRequest Coin Timestamp) → Bytes → Outcome (RedeemRequest Coin Timestamp)
  set_unknown x raw = do m ← deref x; returns (record m { unknown_fields = raw })

  module _ {V : Type 0} (p : Scalars V) (coin_pointers : Pointers V Coin)
      (timestamp_pointers : Pointers V Timestamp) where
    abbrev pub get_field : Field → RedeemRequest Coin Timestamp → V
    get_field fd_account x = p.value_of_string x.account
    get_field fd_collateral x = coin_pointers.value_of_pointer x.collateral
    get_field fd_completiontime x = timestamp_pointers.value_of_pointer x.completiontime

    abbrev pub set_field :
        Field → V → Option (RedeemRequest Coin Timestamp) → Outcome (RedeemRequest Coin Timestamp)
    set_field fd_account value x = do
      v ← take_out p.as_string value
      m ← deref x
      returns (record m { account = v })
    set_field fd_collateral value x = do
      v ← take_out coin_pointers.as_pointer value
      m ← deref x
      returns (record m { collateral = v })
    set_field fd_completiontime value x = do
      v ← take_out timestamp_pointers.as_pointer value
      m ← deref x
      returns (record m { completiontime = v })

    abbrev pub mutable_field :
        Field → Option (RedeemRequest Coin Timestamp) → Outcome (V × RedeemRequest Coin Timestamp)
    mutable_field fd_account x = panics not_mutable
    mutable_field fd_collateral x = do
      m ← deref x
      let a = pointed coin_pointers m.collateral
      returns (coin_pointers.value_of_pointer (some a), record m { collateral = some a })
    mutable_field fd_completiontime x = do
      m ← deref x
      let a = pointed timestamp_pointers m.completiontime
      returns (timestamp_pointers.value_of_pointer (some a), record m { completiontime = some a })

    abbrev pub new_value : Field → V
    new_value fd_account = p.value_of_string []
    new_value fd_collateral = coin_pointers.value_of_pointer (some coin_pointers.new_message)
    new_value fd_completiontime =
        timestamp_pointers.value_of_pointer (some timestamp_pointers.new_message)

    abbrev pub reflection : Reflection V Field (RedeemRequest Coin Timestamp)
    reflection = record {
      field_of = field_of;
      descriptor = descriptor;
      has_field = has_field;
      clear_field = clear_field;
      get_field = get_field;
      set_field = set_field;
      mutable_field = mutable_field;
      new_value = new_value;
    }

    abbrev pub has : FieldDescriptor → Option (RedeemRequest Coin Timestamp) → Outcome Bool
    has fd x = Reflect.has reflection fd x

    abbrev pub clear :
        FieldDescriptor
        → Option (RedeemRequest Coin Timestamp)
        → Outcome (RedeemRequest Coin Timestamp)
    clear fd x = Reflect.clear reflection fd x

    abbrev pub get : FieldDescriptor → Option (RedeemRequest Coin Timestamp) → Outcome V
    get fd x = Reflect.get reflection fd x

    abbrev pub set :
        FieldDescriptor
        → V
        → Option (RedeemRequest Coin Timestamp)
        → Outcome (RedeemRequest Coin Timestamp)
    set fd value x = Reflect.set reflection fd value x

    abbrev pub mutable :
        FieldDescriptor
        → Option (RedeemRequest Coin Timestamp)
        → Outcome (V × RedeemRequest Coin Timestamp)
    mutable fd x = Reflect.mutable reflection fd x

    abbrev pub new_field : FieldDescriptor → Outcome V
    new_field fd = Reflect.new_field reflection fd

    -- A receiver that is nil is read at once.
    unfoldable pub range :
        {S : Type 0} → Callback V S → Option (RedeemRequest Coin Timestamp) → S → Outcome S
    unfolding visit
    range f none s = panics nil_pointer
    range f (some x) s = returns (
        visit f (not (bytes_eq x.account [])) (descriptor fd_account) (p.value_of_string x.account)
          (visit f (is_set x.collateral) (descriptor fd_collateral)
            (coin_pointers.value_of_pointer x.collateral)
            (visit f (is_set x.completiontime) (descriptor fd_completiontime)
              (timestamp_pointers.value_of_pointer x.completiontime) (λ t. t)))
          s)
