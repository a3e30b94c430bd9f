-- ===== src/Api/MsgMintHalResponse.antt =====
-- The reflection of MsgMintHalResponse: api/halbornctf/hal/tx.pulsar.go.
pub mod Laws
pub mod Codec
pub mod RoundTrip
use halborn.Prelude.{
  ℕ, ◌%◌, ◌^◌, Bytes, [], codes, bytes_eq, ◌==◌, Bool, true, false, not, if◌then◌else◌, Option,
  none, some, List, ◌∷◌,
}
use halborn.Prelude.Int.{ℤ, pos}
use halborn.Api.Outcome.{Outcome, returns, panics, not_mutable, nil_pointer, ◌>>=◌, deref}
use halborn.Api.Proto.{
  FieldDescriptor, Scalars, Pointers, take_out, is_set, is_zero, wrap_i32, pointed,
}
use halborn.Api.Reflect as Reflect
use halborn.Api.Reflect.{Reflection, Callback, visit}

pub record MsgMintHalResponse (Coin : Type 0) : Type 0 where
  pub minted_amount : Option Coin
  pub unknown_fields : Bytes

-- `Reset`, and what `New` allocates
abbrev pub new_msg_mint_hal_response : {Coin : Type 0} → MsgMintHalResponse Coin
new_msg_mint_hal_response = record { minted_amount = none; unknown_fields = [] }

pub data Field : Type 0 where
  fd_minted_amount : Field

abbrev pub full_name : Field → Bytes
full_name fd_minted_amount = codes "halbornctf.hal.MsgMintHalResponse.mintedAmount"

abbrev pub descriptor : Field → FieldDescriptor
descriptor f = record { full_name = full_name f; is_extension = false }

-- The labels of the cases.
unfoldable pub field_of : Bytes → Option Field
field_of name = if bytes_eq name (full_name fd_minted_amount) then some fd_minted_amount else none

module _ {Coin : Type 0} where
  abbrev pub has_field : Field → MsgMintHalResponse Coin → Bool
  has_field fd_minted_amount x = is_set x.minted_amount

  abbrev pub clear_field : Field → MsgMintHalResponse Coin → MsgMintHalResponse Coin
  clear_field fd_minted_amount x = record x { minted_amount = none }

  -- The getters, which take nil as well.
  abbrev pub get_minted_amount : Option (MsgMintHalResponse Coin) → Option Coin
  get_minted_amount none = none
  get_minted_amount (some x) = x.minted_amount

  abbrev pub get_unknown : Option (MsgMintHalResponse Coin) → Outcome Bytes
  get_unknown x = do m ← deref x; returns m.unknown_fields

  abbrev pub set_unknown :
      Option (MsgMintHalResponse Coin) → Bytes → Outcome (MsgMintHalResponse Coin)
  set_unknown x raw = do m ← deref x; returns (record m { unknown_fields = raw })

  module _ {V : Type 0} (coin_pointers : Pointers V Coin) where
    abbrev pub get_field : Field → MsgMintHalResponse Coin → V
    get_field fd_minted_amount x = coin_pointers.value_of_pointer x.minted_amount

    abbrev pub set_field :
        Field → V → Option (MsgMintHalResponse Coin) → Outcome (MsgMintHalResponse Coin)
    set_field fd_minted_amount value x = do
      v ← take_out coin_pointers.as_pointer value
      m ← deref x
      returns (record m { minted_amount = v })

    abbrev pub mutable_field :
        Field → Option (MsgMintHalResponse Coin) → Outcome (V × MsgMintHalResponse Coin)
    mutable_field fd_minted_amount x = do
      m ← deref x
      let a = pointed coin_pointers m.minted_amount
      returns (coin_pointers.value_of_pointer (some a), record m { minted_amount = some a })

    abbrev pub new_value : Field → V
    new_value fd_minted_amount = coin_pointers.value_of_pointer (some coin_pointers.new_message)

    abbrev pub reflection : Reflection V Field (MsgMintHalResponse Coin)
    reflection = record {
      field_of = field_of;
      descriptor = descriptor;
      has_field = has_field;
      clear_field = clear_field;
      get_field = get_field;
      set_field = set_field;
      mutable_field = mutable_field;
      new_value = new_value;
    }

    abbrev pub has : FieldDescriptor → Option (MsgMintHalResponse Coin) → Outcome Bool
    has fd x = Reflect.has reflection fd x

    abbrev pub clear :
        FieldDescriptor → Option (MsgMintHalResponse Coin) → Outcome (MsgMintHalResponse Coin)
    clear fd x = Reflect.clear reflection fd x

    abbrev pub get : FieldDescriptor → Option (MsgMintHalResponse Coin) → Outcome V
    get fd x = Reflect.get reflection fd x

    abbrev pub set :
        FieldDescriptor → V → Option (MsgMintHalResponse Coin) → Outcome (MsgMintHalResponse Coin)
    set fd value x = Reflect.set reflection fd value x

    abbrev pub mutable :
        FieldDescriptor → Option (MsgMintHalResponse Coin) → Outcome (V × MsgMintHalResponse Coin)
    mutable fd x = Reflect.mutable reflection fd x

    abbrev pub new_field : FieldDescriptor → Outcome V
    new_field fd = Reflect.new_field reflection fd

    -- A receiver that is nil is read at once.
    unfoldable pub range :
        {S : Type 0} → Callback V S → Option (MsgMintHalResponse Coin) → S → Outcome S
    unfolding visit
    range f none s = panics nil_pointer
    range f (some x) s = returns (
        visit f (is_set x.minted_amount) (descriptor fd_minted_amount)
          (coin_pointers.value_of_pointer x.minted_amount) (λ t. t) s)
