-- ===== src/Api/Params.antt =====
-- The reflection of Params: api/halbornctf/hal/params.pulsar.go.
pub mod Laws
pub mod Codec
pub mod RoundTrip
pub mod Interop
pub mod Views
use halborn.Prelude.{
  ℕ, ◌%◌, ◌^◌, Bytes, [], codes, bytes_eq, ◌==◌, Bool, true, false, not, if◌then◌else◌, Option,
  none, some, List, ◌∷◌,
}
use halborn.Prelude.Int.{ℤ, pos}
use halborn.Api.Outcome.{Outcome, returns, panics, not_mutable, nil_pointer, ◌>>=◌, deref}
use halborn.Api.Proto.{
  FieldDescriptor, Scalars, Pointers, take_out, is_set, is_zero, wrap_i32, pointed,
}
use halborn.Api.Reflect as Reflect
use halborn.Api.Reflect.{Reflection, Callback, visit}
use halborn.Api.TokenMeta.{TokenMeta}

pub record Params (Duration : Type 0) : Type 0 where
  pub redeem_dur : Option Duration
  pub max_redeem_entries : ℤ
  pub collateral_metas : Option TokenMeta
  pub hal_meta : Option TokenMeta
  pub unknown_fields : Bytes

-- `Reset`, and what `New` allocates
abbrev pub new_params : {Duration : Type 0} → Params Duration
new_params = record {
  redeem_dur = none;
  max_redeem_entries = pos 0;
  collateral_metas = none;
  hal_meta = none;
  unknown_fields = [];
}

pub data Field : Type 0 where
  fd_redeem_dur fd_max_redeem_entries fd_collateral_metas fd_hal_meta : Field

abbrev pub full_name : Field → Bytes
full_name fd_redeem_dur = codes "halbornctf.hal.Params.redeem_dur"
full_name fd_max_redeem_entries = codes "halbornctf.hal.Params.max_redeem_entries"
full_name fd_collateral_metas = codes "halbornctf.hal.Params.collateral_metas"
full_name fd_hal_meta = codes "halbornctf.hal.Params.hal_meta"

abbrev pub descriptor : Field → FieldDescriptor
descriptor f = record { full_name = full_name f; is_extension = false }

-- The labels of the cases.
unfoldable pub field_of : Bytes → Option Field
field_of name =
    if bytes_eq name (full_name fd_redeem_dur)
    then some fd_redeem_dur
    else (if bytes_eq name (full_name fd_max_redeem_entries)
        then some fd_max_redeem_entries
        else (if bytes_eq name (full_name fd_collateral_metas)
            then some fd_collateral_metas
            else (if bytes_eq name (full_name fd_hal_meta) then some fd_hal_meta else none)))

module _ {Duration : Type 0} where
  abbrev pub has_field : Field → Params Duration → Bool
  has_field fd_redeem_dur x = is_set x.redeem_dur
  has_field fd_max_redeem_entries x = not (is_zero x.max_redeem_entries)
  has_field fd_collateral_metas x = is_set x.collateral_metas
  has_field fd_hal_meta x = is_set x.hal_meta

  abbrev pub clear_field : Field → Params Duration → Params Duration
  clear_field fd_redeem_dur x = record x { redeem_dur = none }
  clear_field fd_max_redeem_entries x = record x { max_redeem_entries = pos 0 }
  clear_field fd_collateral_metas x = record x { collateral_metas = none }
  clear_field fd_hal_meta x = record x { hal_meta = none }

  -- The getters, which take nil as well.
  abbrev pub get_redeem_dur : Option (Params Duration) → Option Duration
  get_redeem_dur none = none
  get_redeem_dur (some x) = x.redeem_dur

  abbrev pub get_max_redeem_entries : Option (Params Duration) → ℤ
  get_max_redeem_entries none = pos 0
  get_max_redeem_entries (some x) = x.max_redeem_entries

  abbrev pub get_collateral_metas : Option (Params Duration) → Option TokenMeta
  get_collateral_metas none = none
  get_collateral_metas (some x) = x.collateral_metas

  abbrev pub get_hal_meta : Option (Params Duration) → Option TokenMeta
  get_hal_meta none = none
  get_hal_meta (some x) = x.hal_meta

  abbrev pub get_unknown : Option (Params Duration) → Outcome Bytes
  get_unknown x = do m ← deref x; returns m.unknown_fields

  abbrev pub set_unknown : Option (Params Duration) → Bytes → Outcome (Params Duration)
  set_unknown x raw = do m ← deref x; returns (record m { unknown_fields = raw })

  module _ {V : Type 0} (p : Scalars V) (duration_pointers : Pointers V Duration)
      (token_meta_pointers : Pointers V TokenMeta) where
    abbrev pub get_field : Field → Params Duration → V
    get_field fd_redeem_dur x = duration_pointers.value_of_pointer x.redeem_dur
    get_field fd_max_redeem_entries x = p.value_of_int32 x.max_redeem_entries
    get_field fd_collateral_metas x = token_meta_pointers.value_of_pointer x.collateral_metas
    get_field fd_hal_meta x = token_meta_pointers.value_of_pointer x.hal_meta

    abbrev pub set_field : Field → V → Option (Params Duration) → Outcome (Params Duration)
    set_field fd_redeem_dur value x = do
      v ← take_out duration_pointers.as_pointer value
      m ← deref x
      returns (record m { redeem_dur = v })
    set_field fd_max_redeem_entries value x = do
      v ← take_out p.as_int value
      m ← deref x
      returns (record m { max_redeem_entries = wrap_i32 v })
    set_field fd_collateral_metas value x = do
      v ← take_out token_meta_pointers.as_pointer value
      m ← deref x
      returns (record m { collateral_metas = v })
    set_field fd_hal_meta value x = do
      v ← take_out token_meta_pointers.as_pointer value
      m ← deref x
      returns (record m { hal_meta = v })

    abbrev pub mutable_field : Field → Option (Params Duration) → Outcome (V × Params Duration)
    mutable_field fd_redeem_dur x = do
      m ← deref x
      let a = pointed duration_pointers m.redeem_dur
      returns (duration_pointers.value_of_pointer (some a), record m { redeem_dur = some a })
    mutable_field fd_max_redeem_entries x = panics not_mutable
    mutable_field fd_collateral_metas x = do
      m ← deref x
      let a = pointed token_meta_pointers m.collateral_metas
      returns
          (token_meta_pointers.value_of_pointer (some a), record m { collateral_metas = some a })
    mutable_field fd_hal_meta x = do
      m ← deref x
      let a = pointed token_meta_pointers m.hal_meta
      returns (token_meta_pointers.value_of_pointer (some a), record m { hal_meta = some a })

    abbrev pub new_value : Field → V
    new_value fd_redeem_dur =
        duration_pointers.value_of_pointer (some duration_pointers.new_message)
    new_value fd_max_redeem_entries = p.value_of_int32 (pos 0)
    new_value fd_collateral_metas =
        token_meta_pointers.value_of_pointer (some token_meta_pointers.new_message)
    new_value fd_hal_meta =
        token_meta_pointers.value_of_pointer (some token_meta_pointers.new_message)

    abbrev pub reflection : Reflection V Field (Params Duration)
    reflection = record {
      field_of = field_of;
      descriptor = descriptor;
      has_field = has_field;
      clear_field = clear_field;
      get_field = get_field;
      set_field = set_field;
      mutable_field = mutable_field;
      new_value = new_value;
    }

    abbrev pub has : FieldDescriptor → Option (Params Duration) → Outcome Bool
    has fd x = Reflect.has reflection fd x

    abbrev pub clear : FieldDescriptor → Option (Params Duration) → Outcome (Params Duration)
    clear fd x = Reflect.clear reflection fd x

    abbrev pub get : FieldDescriptor → Option (Params Duration) → Outcome V
    get fd x = Reflect.get reflection fd x

    abbrev pub set : FieldDescriptor → V → Option (Params Duration) → Outcome (Params Duration)
    set fd value x = Reflect.set reflection fd value x

    abbrev pub mutable : FieldDescriptor → Option (Params Duration) → Outcome (V × Params Duration)
    mutable fd x = Reflect.mutable reflection fd x

    abbrev pub new_field : FieldDescriptor → Outcome V
    new_field fd = Reflect.new_field reflection fd

    -- A receiver that is nil is read at once.
    unfoldable pub range : {S : Type 0} → Callback V S → Option (Params Duration) → S → Outcome S
    unfolding visit
    range f none s = panics nil_pointer
    range f (some x) s = returns (
        visit f (is_set x.redeem_dur) (descriptor fd_redeem_dur)
          (duration_pointers.value_of_pointer x.redeem_dur)
          (visit f (not (is_zero x.max_redeem_entries)) (descriptor fd_max_redeem_entries)
            (p.value_of_int32 x.max_redeem_entries)
            (visit f (is_set x.collateral_metas) (descriptor fd_collateral_metas)
              (token_meta_pointers.value_of_pointer x.collateral_metas)
              (visit f (is_set x.hal_meta) (descriptor fd_hal_meta)
                (token_meta_pointers.value_of_pointer x.hal_meta) (λ t. t))))
          s)
