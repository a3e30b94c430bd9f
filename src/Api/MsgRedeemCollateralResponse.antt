-- ===== src/Api/MsgRedeemCollateralResponse.antt =====
-- The reflection of MsgRedeemCollateralResponse: api/halbornctf/hal/tx.pulsar.go.
pub mod Laws
pub mod Codec
pub mod RoundTrip
use halborn.Prelude.{
  ℕ, ◌%◌, ◌^◌, Bytes, [], codes, bytes_eq, ◌==◌, Bool, true, false, not, if◌then◌else◌, Option,
  none, some, List, ◌∷◌,
}
use halborn.Prelude.Int.{ℤ, pos}
use halborn.Api.Outcome.{Outcome, returns, panics, not_mutable, nil_pointer, ◌>>=◌, deref}
use halborn.Api.Proto.{
  FieldDescriptor, Scalars, Pointers, take_out, is_set, is_zero, wrap_i32, pointed,
}
use halborn.Api.Reflect as Reflect
use halborn.Api.Reflect.{Reflection, Callback, visit}

pub record MsgRedeemCollateralResponse (Coin Timestamp : Type 0) : Type 0 where
  pub burned_amount : Option Coin
  pub completion_time : Option Timestamp
  pub unknown_fields : Bytes

-- `Reset`, and what `New` allocates
abbrev pub new_msg_redeem_collateral_response :
    {Coin Timestamp : Type 0} → MsgRedeemCollateralResponse Coin Timestamp
new_msg_redeem_collateral_response = record {
  burned_amount = none;
  completion_time = none;
  unknown_fields = [];
}

pub data Field : Type 0 where
  fd_burned_amount fd_completion_time : Field

abbrev pub full_name : Field → Bytes
full_name fd_burned_amount = codes "halbornctf.hal.MsgRedeemCollateralResponse.burnedAmount"
full_name fd_completion_time = codes "halbornctf.hal.MsgRedeemCollateralResponse.completion_time"

abbrev pub descriptor : Field → FieldDescriptor
descriptor f = record { full_name = full_name f; is_extension = false }

-- The labels of the cases.
unfoldable pub field_of : Bytes → Option Field
field_of name =
    if bytes_eq name (full_name fd_burned_amount)
    then some fd_burned_amount
    else (if bytes_eq name (full_name fd_completion_time) then some fd_completion_time else none)

module _ {Coin Timestamp : Type 0} where
  abbrev pub has_field : Field → MsgRedeemCollateralResponse Coin Timestamp → Bool
  has_field fd_burned_amount x = is_set x.burned_amount
  has_field fd_completion_time x = is_set x.completion_time

  abbrev pub clear_field :
      Field
      → MsgRedeemCollateralResponse Coin Timestamp
      → MsgRedeemCollateralResponse Coin Timestamp
  clear_field fd_burned_amount x = record x { burned_amount = none }
  clear_field fd_completion_time x = record x { completion_time = none }

  -- The getters, which take nil as well.
  abbrev pub get_burned_amount : Option (MsgRedeemCollateralResponse Coin Timestamp) → Option Coin
  get_burned_amount none = none
  get_burned_amount (some x) = x.burned_amount

  abbrev pub get_completion_time :
      Option (MsgRedeemCollateralResponse Coin Timestamp) → Option Timestamp
  get_completion_time none = none
  get_completion_time (some x) = x.completion_time

  abbrev pub get_unknown : Option (MsgRedeemCollateralResponse Coin Timestamp) → Outcome Bytes
  get_unknown x = do m ← deref x; returns m.unknown_fields

  abbrev pub set_unknown :
      Option (MsgRedeemCollateralResponse Coin Timestamp)
      → Bytes
      → Outcome (MsgRedeemCollateralResponse Coin Timestamp)
  set_unknown x raw = do m ← deref x; returns (record m { unknown_fields = raw })

  module _ {V : Type 0} (coin_pointers : Pointers V Coin)
      (timestamp_pointers : Pointers V Timestamp) where
    abbrev pub get_field : Field → MsgRedeemCollateralResponse Coin Timestamp → V
    get_field fd_burned_amount x = coin_pointers.value_of_pointer x.burned_amount
    get_field fd_completion_time x = timestamp_pointers.value_of_pointer x.completion_time

    abbrev pub set_field :
        Field
        → V
        → Option (MsgRedeemCollateralResponse Coin Timestamp)
        → Outcome (MsgRedeemCollateralResponse Coin Timestamp)
    set_field fd_burned_amount value x = do
      v ← take_out coin_pointers.as_pointer value
      m ← deref x
      returns (record m { burned_amount = v })
    set_field fd_completion_time value x = do
      v ← take_out timestamp_pointers.as_pointer value
      m ← deref x
      returns (record m { completion_time = v })

    abbrev pub mutable_field :
        Field
        → Option (MsgRedeemCollateralResponse Coin Timestamp)
        → Outcome (V × MsgRedeemCollateralResponse Coin Timestamp)
    mutable_field fd_burned_amount x = do
      m ← deref x
      let a = pointed coin_pointers m.burned_amount
      returns (coin_pointers.value_of_pointer (some a), record m { burned_amount = some a })
    mutable_field fd_completion_time x = do
      m ← deref x
      let a = pointed timestamp_pointers m.completion_time
      returns (timestamp_pointers.value_of_pointer (some a), record m { completion_time = some a })

    abbrev pub new_value : Field → V
    new_value fd_burned_amount = coin_pointers.value_of_pointer (some coin_pointers.new_message)
    new_value fd_completion_time =
        timestamp_pointers.value_of_pointer (some timestamp_pointers.new_message)

    abbrev pub reflection : Reflection V Field (MsgRedeemCollateralResponse Coin Timestamp)
    reflection = record {
      field_of = field_of;
      descriptor = descriptor;
      has_field = has_field;
      clear_field = clear_field;
      get_field = get_field;
      set_field = set_field;
      mutable_field = mutable_field;
      new_value = new_value;
    }

    abbrev pub has :
        FieldDescriptor → Option (MsgRedeemCollateralResponse Coin Timestamp) → Outcome Bool
    has fd x = Reflect.has reflection fd x

    abbrev pub clear :
        FieldDescriptor
        → Option (MsgRedeemCollateralResponse Coin Timestamp)
        → Outcome (MsgRedeemCollateralResponse Coin Timestamp)
    clear fd x = Reflect.clear reflection fd x

    abbrev pub get :
        FieldDescriptor → Option (MsgRedeemCollateralResponse Coin Timestamp) → Outcome V
    get fd x = Reflect.get reflection fd x

    abbrev pub set :
        FieldDescriptor
        → V
        → Option (MsgRedeemCollateralResponse Coin Timestamp)
        → Outcome (MsgRedeemCollateralResponse Coin Timestamp)
    set fd value x = Reflect.set reflection fd value x

    abbrev pub mutable :
        FieldDescriptor
        → Option (MsgRedeemCollateralResponse Coin Timestamp)
        → Outcome (V × MsgRedeemCollateralResponse Coin Timestamp)
    mutable fd x = Reflect.mutable reflection fd x

    abbrev pub new_field : FieldDescriptor → Outcome V
    new_field fd = Reflect.new_field reflection fd

    -- A receiver that is nil is read at once.
    unfoldable pub range :
        {S : Type 0}
        → Callback V S
        → Option (MsgRedeemCollateralResponse Coin Timestamp)
        → S
        → Outcome S
    unfolding visit
    range f none s = panics nil_pointer
    range f (some x) s = returns (
        visit f (is_set x.burned_amount) (descriptor fd_burned_amount)
          (coin_pointers.value_of_pointer x.burned_amount)
          (visit f (is_set x.completion_time) (descriptor fd_completion_time)
            (timestamp_pointers.value_of_pointer x.completion_time) (λ t. t))
          s)
