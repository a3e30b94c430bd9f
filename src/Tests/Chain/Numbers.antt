-- ===== src/Tests/Chain/Numbers.antt =====
-- Decimals without decimal places, and codecs that write one number for a number.
use halborn.Prelude.{
  ℕ, zero, suc, ◌-◌, ◌*◌, ◌/◌, ◌≡◌, refl, arith, Bytes, not, ◌&&◌, [], ◌∷◌, Option, none, some,
  if◌then◌else◌,
}
use halborn.Prelude.Int.{ℤ, pos, negsuc, ◌*ℤ◌, is_negative, is_zero}
use mathlib.Core.Option.{some-injective}
use halborn.Types.Coin.{Coin}
use halborn.Wire.Gogo.{Gogo, IsCodec}
use halborn.Sdk.Math.{Math, IsMath}
use halborn.Tests.Chain.Ledger.{named}

-- Division that rounds towards zero.
abbrev quotient : ℤ → ℤ → ℤ
quotient (pos n) (pos k) = pos (n / k)
quotient (pos n) (negsuc k) = pos 0
quotient (negsuc n) b = pos 0

abbrev pub plain_math : Math
plain_math = record {
  valid_denom = named;
  is_valid = λ c. named c.denom && not (is_negative c.amount);
  new_coin = λ d a.
      if named d && not (is_negative a) then some (record { denom = d; amount = a }) else none;
  new_coins = λ c.
      if is_zero c.amount
      then some []
      else if named c.denom && not (is_negative c.amount)
      then some (c ∷ [])
      else none;
  LegacyDec = ℤ;
  new_dec = λ n. n;
  new_dec_from_int = λ n. n;
  mul = λ a b. some (a *ℤ b);
  quo = λ a b. some (quotient a b);
  truncate_int = λ a. some a;
}

times : (n k : ℕ) → pos n *ℤ pos k ≡ pos (n * k)
unfolding ◌*ℤ◌
times n k = ground arith

times_negative : (n k : ℕ) → negsuc n *ℤ pos (suc k) ≡ negsuc (suc n * suc k - 1)
unfolding ◌*ℤ◌
times_negative n k = grind arith

pub plain_math_laws : IsMath plain_math
plain_math_laws = record {
  is_valid_lem = λ c. refl;
  new_coin_lem = λ d a. refl;
  new_coins_lem = λ c. refl;
  mul-exact = λ n k h. (pos n *ℤ pos k, refl, rw (times n k));
  mul-negative = λ n k h. (negsuc n *ℤ pos (suc k), refl, rw (times_negative n k));
  quo-floor = λ n k h p. (pos (n / suc k), refl, refl);
}

-- A sign and a size stand for a number.
abbrev sign_of : ℤ → ℕ
sign_of (pos n) = 0
sign_of (negsuc n) = 1

abbrev size_of : ℤ → ℕ
size_of (pos n) = n
size_of (negsuc n) = n

abbrev signed : ℕ → ℕ → ℤ
signed zero n = pos n
signed (suc s) n = negsuc n

signed-of : (a : ℤ) → signed (sign_of a) (size_of a) ≡ a
signed-of (pos n) = refl
signed-of (negsuc n) = refl

abbrev number : Bytes → Option ℤ
number (s ∷ n ∷ []) = some (signed s n)
number bz = none

abbrev coin_of : Bytes → Option Coin
coin_of (s ∷ n ∷ d) = some (record { denom = d; amount = signed s n })
coin_of bz = none

-- Only the codec of coins, times and durations is this chain's own.
abbrev pub plain_codec : Gogo
plain_codec = record {
  coin_marshal = λ c. sign_of c.amount ∷ size_of c.amount ∷ c.denom;
  coin_unmarshal = λ old bz. coin_of bz;
  time_marshal = λ t. some (sign_of t ∷ size_of t ∷ []);
  time_unmarshal = number;
  duration_marshal = λ t. some (sign_of t ∷ size_of t ∷ []);
  duration_unmarshal = number;
}

number-round : (t : ℤ) → number (sign_of t ∷ size_of t ∷ []) ≡ some t
number-round t = rw (signed-of t)

number-same : (t : ℤ) (bs : Bytes) → sign_of t ∷ size_of t ∷ [] ≡ bs → number bs ≡ some t
number-same t bs h = rw (← h) (number-round t)

pub plain_codec_laws : IsCodec plain_codec
plain_codec_laws = record {
  coin-round = λ c. rw (signed-of c.amount);
  time-round = λ t bs h. number-same t bs (some-injective _ _ h);
  duration-round = λ t bs h. number-same t bs (some-injective _ _ h);
}
