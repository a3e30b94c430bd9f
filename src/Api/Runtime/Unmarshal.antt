-- ===== src/Api/Runtime/Unmarshal.antt =====
-- The unmarshal function of `ProtoMethods`, round the fields of a message.
use halborn.Prelude.{
  ℕ, ◌+◌, ◌^◌, Bytes, length, take, Bool, ltb, leb, ◌||◌, if◌then◌else◌, Option, none, some,
}
use halborn.Wire.Result.{Result, ok, ◌>>=◌, ◌>>◌, fail_if, invalid_length, unexpected_eof}
use halborn.Wire.Reader.{Cursor, advance, bytes_case, unmarshal_all}
use halborn.Api.Runtime.{Runtime, Codec}

-- The `default:` case of the switch over field numbers. `keep` appends to the unknown fields.
unfoldable pub keep_unknown {ℓ} :
    {M : Type ℓ} → Runtime → Bool → (Bytes → M) → M → Cursor → Result (M × Cursor)
keep_unknown rt discard keep m pre = do
  skippy ← rt.skip pre.rest
  fail_if (leb (2 ^ 63) skippy || leb (2 ^ 63) (pre.idx + skippy)) invalid_length
  fail_if (ltb (length pre.rest) skippy) unexpected_eof
  ok (if discard then m else keep (take skippy pre.rest), advance skippy pre)

-- A nil message reads nothing.
unfoldable pub unmarshal_message {ℓ} :
    {M : Type ℓ}
    → (ℕ → ℕ → Cursor → Cursor → M → Result (M × Cursor))
    → Option M
    → Bytes
    → Result (Option M)
unmarshal_message field none bs = ok none
unmarshal_message field (some x) bs = unmarshal_all field x bs >>= λ x'. ok (some x')

-- `x.F`, allocated first where it is nil
abbrev pub allocated {ℓ} : {A : Type ℓ} → Codec A → Option A → A
allocated codec none = codec.new_message
allocated codec (some a) = a

-- The `case` of a field that is a message.
unfoldable pub message_case {ℓ κ} :
    {A : Type ℓ} {M : Type κ}
    → Codec A
    → ℕ
    → Option A
    → (Option A → M)
    → Cursor
    → Result (M × Cursor)
message_case codec wire_type old set c =
    bytes_case wire_type (λ s. codec.unmarshal (allocated codec old) s >>= λ a. ok (set (some a))) c
