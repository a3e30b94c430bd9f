-- ===== src/Api/MsgMintHal.antt =====
-- The reflection of MsgMintHal: api/halbornctf/hal/tx.pulsar.go.
pub mod Laws
pub mod Codec
pub mod RoundTrip
use halborn.Prelude.{
  ℕ, ◌%◌, ◌^◌, Bytes, [], codes, bytes_eq, ◌==◌, Bool, true, false, not, if◌then◌else◌, Option,
  none, some, List, ◌∷◌,
}
use halborn.Prelude.Int.{ℤ, pos}
use halborn.Api.Outcome.{Outcome, returns, panics, not_mutable, nil_pointer, ◌>>=◌, deref}
use halborn.Api.Proto.{
  FieldDescriptor, Scalars, Pointers, take_out, is_set, is_zero, wrap_i32, pointed,
}
use halborn.Api.Reflect as Reflect
use halborn.Api.Reflect.{Reflection, Callback, visit}

pub record MsgMintHal (Coin : Type 0) : Type 0 where
  pub creator : Bytes
  pub collateral_amount : Option Coin
  pub unknown_fields : Bytes

-- `Reset`, and what `New` allocates
abbrev pub new_msg_mint_hal : {Coin : Type 0} → MsgMintHal Coin
new_msg_mint_hal = record { creator = []; collateral_amount = none; unknown_fields = [] }

pub data Field : Type 0 where
  fd_creator fd_collateral_amount : Field

abbrev pub full_name : Field → Bytes
full_name fd_creator = codes "halbornctf.hal.MsgMintHal.creator"
full_name fd_collateral_amount = codes "halbornctf.hal.MsgMintHal.collateralAmount"

abbrev pub descriptor : Field → FieldDescriptor
descriptor f = record { full_name = full_name f; is_extension = false }

-- The labels of the cases.
unfoldable pub field_of : Bytes → Option Field
field_of name =
    if bytes_eq name (full_name fd_creator)
    then some fd_creator
    else (if bytes_eq name (full_name fd_collateral_amount)
        then some fd_collateral_amount
        else none)

module _ {Coin : Type 0} where
  abbrev pub has_field : Field → MsgMintHal Coin → Bool
  has_field fd_creator x = not (bytes_eq x.creator [])
  has_field fd_collateral_amount x = is_set x.collateral_amount

  abbrev pub clear_field : Field → MsgMintHal Coin → MsgMintHal Coin
  clear_field fd_creator x = record x { creator = [] }
  clear_field fd_collateral_amount x = record x { collateral_amount = none }

  -- The getters, which take nil as well.
  abbrev pub get_creator : Option (MsgMintHal Coin) → Bytes
  get_creator none = []
  get_creator (some x) = x.creator

  abbrev pub get_collateral_amount : Option (MsgMintHal Coin) → Option Coin
  get_collateral_amount none = none
  get_collateral_amount (some x) = x.collateral_amount

  abbrev pub get_unknown : Option (MsgMintHal Coin) → Outcome Bytes
  get_unknown x = do m ← deref x; returns m.unknown_fields

  abbrev pub set_unknown : Option (MsgMintHal Coin) → Bytes → Outcome (MsgMintHal Coin)
  set_unknown x raw = do m ← deref x; returns (record m { unknown_fields = raw })

  module _ {V : Type 0} (p : Scalars V) (coin_pointers : Pointers V Coin) where
    abbrev pub get_field : Field → MsgMintHal Coin → V
    get_field fd_creator x = p.value_of_string x.creator
    get_field fd_collateral_amount x = coin_pointers.value_of_pointer x.collateral_amount

    abbrev pub set_field : Field → V → Option (MsgMintHal Coin) → Outcome (MsgMintHal Coin)
    set_field fd_creator value x = do
      v ← take_out p.as_string value
      m ← deref x
      returns (record m { creator = v })
    set_field fd_collateral_amount value x = do
      v ← take_out coin_pointers.as_pointer value
      m ← deref x
      returns (record m { collateral_amount = v })

    abbrev pub mutable_field : Field → Option (MsgMintHal Coin) → Outcome (V × MsgMintHal Coin)
    mutable_field fd_creator x = panics not_mutable
    mutable_field fd_collateral_amount x = do
      m ← deref x
      let a = pointed coin_pointers m.collateral_amount
      returns (coin_pointers.value_of_pointer (some a), record m { collateral_amount = some a })

    abbrev pub new_value : Field → V
    new_value fd_creator = p.value_of_string []
    new_value fd_collateral_amount = coin_pointers.value_of_pointer (some coin_pointers.new_message)

    abbrev pub reflection : Reflection V Field (MsgMintHal Coin)
    reflection = record {
      field_of = field_of;
      descriptor = descriptor;
      has_field = has_field;
      clear_field = clear_field;
      get_field = get_field;
      set_field = set_field;
      mutable_field = mutable_field;
      new_value = new_value;
    }

    abbrev pub has : FieldDescriptor → Option (MsgMintHal Coin) → Outcome Bool
    has fd x = Reflect.has reflection fd x

    abbrev pub clear : FieldDescriptor → Option (MsgMintHal Coin) → Outcome (MsgMintHal Coin)
    clear fd x = Reflect.clear reflection fd x

    abbrev pub get : FieldDescriptor → Option (MsgMintHal Coin) → Outcome V
    get fd x = Reflect.get reflection fd x

    abbrev pub set : FieldDescriptor → V → Option (MsgMintHal Coin) → Outcome (MsgMintHal Coin)
    set fd value x = Reflect.set reflection fd value x

    abbrev pub mutable : FieldDescriptor → Option (MsgMintHal Coin) → Outcome (V × MsgMintHal Coin)
    mutable fd x = Reflect.mutable reflection fd x

    abbrev pub new_field : FieldDescriptor → Outcome V
    new_field fd = Reflect.new_field reflection fd

    -- A receiver that is nil is read at once.
    unfoldable pub range : {S : Type 0} → Callback V S → Option (MsgMintHal Coin) → S → Outcome S
    unfolding visit
    range f none s = panics nil_pointer
    range f (some x) s = returns (
        visit f (not (bytes_eq x.creator [])) (descriptor fd_creator) (p.value_of_string x.creator)
          (visit f (is_set x.collateral_amount) (descriptor fd_collateral_amount)
            (coin_pointers.value_of_pointer x.collateral_amount) (λ t. t))
          s)
