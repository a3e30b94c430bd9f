-- ===== src/Tests/Chain/Ledger.antt =====
-- A ledger whose state is what each address holds and the supply of each denomination.
use halborn.Prelude.{
  ℕ, ◌+◌, ◌-◌, ◌≤◌, ◌<◌, ◌≡◌, refl, arith, Bytes, Bool, true, false, List, [], ◌∷◌, Option, none,
  some, bytes_eq, bytes_eq→eq, bytes_eq_refl, Bool-cases, inl, inr, leb, ltb, le→leb, lt→leb_false,
  ◌&&◌, if◌then◌else◌,
}
use halborn.Prelude.Int.{pos, pos_part, leb_ℤ}
use halborn.Types.Coin.{Coin}
use halborn.Sdk.Bank.{
  Reply, done, failed, panicked, Bank, IsBank, amount_of, at, IsCoins, Moved, Added, Covers,
  Transfers,
}

-- The denominations that are valid: all but the empty one.
abbrev pub named : Bytes → Bool
named [] = false
named (c ∷ d) = true

pub record Ledger : Type 0 where
  pub held : Bytes → Bytes → ℕ
  pub total : Bytes → ℕ

abbrev add : Ledger → Bytes → List Coin → Ledger
add s to cs = record {
  held = λ z d. s.held z d + at to z (amount_of cs d);
  total = λ d. s.total d + amount_of cs d;
}

abbrev remove : Ledger → Bytes → List Coin → Ledger
remove s from cs = record {
  held = λ z d. s.held z d - at from z (amount_of cs d);
  total = λ d. s.total d - amount_of cs d;
}

abbrev has_coins : Ledger → Bytes → List Coin → Bool
has_coins s a [] = true
has_coins s a (c ∷ cs) = leb (pos_part c.amount) (s.held a c.denom) && has_coins s a cs

abbrev send : Ledger → Bytes → Bytes → List Coin → Reply Ledger
send s from to cs =
    if has_coins s from cs
    then done (record s { held = (add (remove s from cs) to cs).held })
    else failed

abbrev to_module : Option Bytes → (Bytes → Reply Ledger) → Reply Ledger
to_module none f = panicked
to_module (some a) f = f a

abbrev burn : Ledger → List Coin → Bytes → Reply Ledger
burn s cs a = if has_coins s a cs then done (remove s a cs) else failed

abbrev address : (Bytes → Bool) → Bytes → Option Bytes
address registered m = if registered m then some m else none

abbrev pub ledger_bank : (Bytes → Bool) → Bank
ledger_bank registered = record {
  State = Ledger;
  get_balance =
      λ s a d. if named d then some (record { denom = d; amount = pos (s.held a d) }) else none;
  has_balance = λ s a c. leb_ℤ c.amount (pos (s.held a c.denom));
  get_supply =
      λ s d. if named d then some (record { denom = d; amount = pos (s.total d) }) else none;
  has_supply = λ s d. ltb 0 (s.total d);
  send_coins_from_account_to_module =
      λ s a m cs. to_module (address registered m) (λ t. send s a t cs);
  send_coins_from_module_to_account =
      λ s m a cs. to_module (address registered m) (λ t. send s t a cs);
  send_coins_from_module_to_module = λ s m n cs.
      to_module (address registered m) (λ t. to_module (address registered n) (λ u. send s t u cs));
  mint_coins = λ s m cs. to_module (address registered m) (λ t. done (add s t cs));
  burn_coins = λ s m cs. to_module (address registered m) (burn s cs);
  get_module_address = address registered;
  held = λ s. s.held;
  locked = λ s a d. 0;
  total = λ s. s.total;
  blocked = λ a. false;
  minter = registered;
  burner = registered;
}

pub has-Covers :
    (s : Ledger) (a : Bytes) (cs : List Coin)
    → IsCoins cs
    → ((d : Bytes) → amount_of cs d ≤ s.held a d)
    → has_coins s a cs ≡ true
has-Covers s a [] valid h = refl
has-Covers s a (c ∷ []) valid h =
    let here = rw (bytes_eq_refl c.denom) at (h c.denom) in
    rw (le→leb (pos_part c.amount) (s.held a c.denom) (omega (arith, here)))
has-Covers s a (c ∷ c' ∷ cs) valid h = elim valid [ ]

pub has-not :
    (s : Ledger) (a : Bytes) (cs : List Coin) (d : Bytes)
    → IsCoins cs
    → s.held a d < amount_of cs d
    → has_coins s a cs ≡ false
has-not s a [] d valid h = let no : ⊥ = omega (arith, h) in elim no [ ]
has-not s a (c ∷ []) d valid h = elim (Bool-cases (bytes_eq c.denom d)) [
  | inl same ↦
      let here = rw same at h in
      rw (
        bytes_eq→eq c.denom d same,
        lt→leb_false (pos_part c.amount) (s.held a d) (omega (arith, here)),
      )
  | inr other ↦ let here = rw other at h in let no : ⊥ = omega (arith, here) in elim no [ ]
]
has-not s a (c ∷ c' ∷ cs) d valid h = elim valid [ ]

-- Taking away and then adding leaves the sums as a move does.
abbrev pub moved_ledger : Ledger → Bytes → Bytes → List Coin → Ledger
moved_ledger s from to cs = record s { held = (add (remove s from cs) to cs).held }

pub moved_lem :
    (registered : Bytes → Bool) (s : Ledger) (from to : Bytes) (cs : List Coin)
    → ((d : Bytes) → amount_of cs d ≤ s.held from d)
    → Moved (ledger_bank registered) s (moved_ledger s from to cs) from to cs
moved_lem registered s from to cs h = record {
  moved = λ z d. elim (Bool-cases (bytes_eq from z)) [
    | inl same ↦
        let enough = rw (bytes_eq→eq from z same) at (h d) in rw same (omega (arith, enough))
    | inr other ↦ rw other (omega arith)
  ];
  total_same = λ d. refl;
  locked_same = λ a d. refl;
}

pub sends :
    (registered : Bytes → Bool) (s : Ledger) (from to : Bytes) (cs : List Coin)
    → Transfers (ledger_bank registered) s from to cs (send s from to cs)
sends registered s from to cs = record {
  goes_through = λ valid h.
      let enough : (d : Bytes) → amount_of cs d ≤ s.held from d = λ d. omega (arith, h d) in
      (
        moved_ledger s from to cs,
        rw (has-Covers s from cs valid enough),
        moved_lem registered s from to cs enough,
      );
  fails = λ valid d h. rw (has-not s from cs d valid (omega (arith, h)));
}

removed :
    (registered : Bytes → Bool) (s : Ledger) (a : Bytes) (cs : List Coin)
    → ((d : Bytes) → amount_of cs d ≤ s.total d)
    → ((d : Bytes) → amount_of cs d ≤ s.held a d)
    → Added (ledger_bank registered) (remove s a cs) s a cs
removed registered s a cs le h = record {
  added = λ z d. elim (Bool-cases (bytes_eq a z)) [
    | inl same ↦ let enough = rw (bytes_eq→eq a z same) at (h d) in rw same (omega (arith, enough))
    | inr other ↦ rw other (omega arith)
  ];
  total_added = λ d. omega (arith, le d);
  locked_still = λ a d. refl;
}

burns :
    (registered : Bytes → Bool) (s : Ledger) (m t : Bytes) (cs : List Coin)
    → address registered m ≡ some t
    → IsCoins cs
    → Covers (ledger_bank registered) s t cs
    → ((d : Bytes) → amount_of cs d ≤ s.total d)
    → (s' : Ledger) × (to_module (address registered m) (burn s cs) ≡ done s')
      × Added (ledger_bank registered) s' s t cs
burns registered s m t cs is_named valid h le =
    let enough : (d : Bytes) → amount_of cs d ≤ s.held t d = λ d. omega (arith, h d) in
    (
      remove s t cs,
      rw (is_named, has-Covers s t cs valid enough),
      removed registered s t cs le enough,
    )

pub ledger_laws : (registered : Bytes → Bool) → IsBank (ledger_bank registered) named
ledger_laws registered = record {
  get_balance_lem = λ s a d. refl;
  get_supply_lem = λ s d. refl;
  has_supply_lem = λ s d. refl;
  has_balance_lem = λ s a c valid. refl;
  from_account = λ s a m cs is_named. rw is_named (sends registered s a _ cs);
  from_account_unknown = λ s a m cs unknown. rw unknown;
  to_account = λ s m a cs is_named free. rw is_named (sends registered s _ a cs);
  between_modules =
      λ s m n cs is_named is_named'. rw (is_named, is_named') (sends registered s _ _ cs);
  minted = λ s m cs is_named may valid. (
    add s _ cs,
    rw is_named,
    record { added = λ z d. refl; total_added = λ d. refl; locked_still = λ a d. refl },
  );
  burned = λ s m cs is_named may valid h le. burns registered s m _ cs is_named valid h le;
  burn_fails = λ s m {t} cs d is_named may valid h.
      let lacks : s.held t d < amount_of cs d = omega (arith, h) in
      rw (is_named, has-not s t cs d valid lacks);
  module_unlocked = λ s m d is_named. refl;
}
