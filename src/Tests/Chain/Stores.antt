-- ===== src/Tests/Chain/Stores.antt =====
-- A store as a list of keys with values.
use halborn.Prelude.{
  ◌≡◌, refl, arith, Bytes, List, [], ◌∷◌, none, some, bytes_eq, bytes_eq→eq, bytes_eq_refl,
  if◌then◌else◌, Bool-cases, inl, inr, true, false,
}
use halborn.Sdk.Store.{KvStore, IsKvStore, value_of}

abbrev Pairs : Type 0
Pairs = List (Bytes × Bytes)

abbrev without : Bytes → Pairs → Pairs
without k [] = []
without k ((j, v) ∷ es) = if bytes_eq j k then without k es else (j, v) ∷ without k es

abbrev pub list_store : KvStore
list_store = record {
  Store = Pairs;
  get = λ s k. value_of k s;
  set = λ s k v. (k, v) ∷ without k s;
  delete = λ s k. without k s;
  entries = λ s. some s;
}

bytes_eq-flip : (i k : Bytes) → bytes_eq i k ≡ false → bytes_eq k i ≡ false
bytes_eq-flip i k h = elim (Bool-cases (bytes_eq k i)) [
  | inl same ↦
      let e : bytes_eq i k ≡ true = rw (bytes_eq→eq k i same) (bytes_eq_refl i) in
      ground (arith, e, h)
  | inr other ↦ other
]

value_of-without :
    (k j : Bytes) (s : Pairs)
    → value_of j (without k s) ≡ (if bytes_eq k j then none else value_of j s)
value_of-without k j [] = ground arith
value_of-without k j ((i, v) ∷ s) = elim (Bool-cases (bytes_eq i k)) [
  | inl same ↦ rw (same, value_of-without k j s, bytes_eq→eq i k same) (ground arith)
  | inr other ↦ elim (Bool-cases (bytes_eq i j)) [
    | inl found ↦ rw (other, found, ← bytes_eq→eq i j found, bytes_eq-flip i k other) refl
    | inr next ↦ rw (other, next) (value_of-without k j s)
  ]
]

pub list_store_laws : IsKvStore list_store
list_store_laws = record {
  get-set = λ s k j v. elim (Bool-cases (bytes_eq k j)) [
    | inl same ↦ rw same
    | inr other ↦ rw (other, value_of-without k j s, other)
  ];
  get-delete = λ s k j. value_of-without k j s;
  entries-get = λ s. (s, refl, λ k. refl);
}
