-- ===== src/Api/Proto.antt =====
-- What the generated messages use of google.golang.org/protobuf/reflect/protoreflect: descriptors of
-- fields, and the values that stand for what a field holds.
use halborn.Prelude.{
  ℕ, ◌%◌, ◌^◌, ◌<◌, ◌≡◌, arith, ◌==◌, Bytes, Bool, true, false, Option, none, some,
}
use halborn.Prelude.Int.{ℤ, pos, negsuc}
use halborn.Wire.Params.{to_u64, to_i32}
use halborn.Api.Outcome.{Outcome, or_panic, wrong_kind}

-- The two methods of a descriptor that are called.
pub record FieldDescriptor : Type 0 where
  pub full_name : Bytes
  pub is_extension : Bool

-- `V` is `protoreflect.Value`. Each pair makes a value from what a field of that kind holds, and
-- takes it out again: `value.Interface().(string)`, `value.Uint()`, `value.Int()`; `none` is a panic.
pub record Scalars (V : Type 0) : Type 0 where
  pub value_of_string : Bytes → V
  pub as_string : V → Option Bytes
  pub value_of_uint64 : ℕ → V
  pub value_of_uint32 : ℕ → V
  pub as_uint : V → Option ℕ
  pub value_of_int32 : ℤ → V
  pub as_int : V → Option ℤ

-- `protoreflect.ValueOfMessage(x.ProtoReflect())` of a pointer to an `A`, which may be nil, and
-- `value.Message().Interface().(*A)`; `new(A)`.
pub record Pointers (V A : Type 0) : Type 0 where
  pub new_message : A
  pub value_of_pointer : Option A → V
  pub as_pointer : V → Option (Option A)

-- A value gives back what it was made from.
pub record IsScalars {V : Type 0} (p : Scalars V) : Type 0 where
  pub string-round : (s : Bytes) → p.as_string (p.value_of_string s) ≡ some s
  pub uint64-round : (n : ℕ) → p.as_uint (p.value_of_uint64 n) ≡ some n
  pub uint32-round : (n : ℕ) → p.as_uint (p.value_of_uint32 n) ≡ some n
  pub int32-round : (n : ℤ) → p.as_int (p.value_of_int32 n) ≡ some n

pub record IsPointers {V A : Type 0} (q : Pointers V A) : Type 0 where
  pub pointer-round : (x : Option A) → q.as_pointer (q.value_of_pointer x) ≡ some x

abbrev pub take_out {ℓ κ} : {V : Type ℓ} {A : Type κ} → (V → Option A) → V → Outcome A
take_out convert v = or_panic wrong_kind (convert v)

-- `x != nil`, and `x` allocated where it is nil
abbrev pub is_set {ℓ} : {A : Type ℓ} → Option A → Bool
is_set none = false
is_set (some a) = true

abbrev pub pointed : {V A : Type 0} → Pointers V A → Option A → A
pointed q none = q.new_message
pointed q (some a) = a

abbrev pub is_zero : ℤ → Bool
is_zero (pos n) = n == 0
is_zero (negsuc n) = false

-- `int32(v)` of an int64
abbrev pub wrap_i32 : ℤ → ℤ
wrap_i32 v = to_i32 (to_u64 v % 2 ^ 32)

pub wrap_i32-pos : (n : ℕ) → n < 2 ^ 31 → wrap_i32 (pos n) ≡ pos n
wrap_i32-pos n h = let same : n % 2 ^ 32 ≡ n = omega arith in rw same (ground arith)
