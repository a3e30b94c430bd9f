-- ===== src/Sdk/Store.antt =====
-- The key-value store of a module: store.KVStore.
use halborn.Prelude.{◌≡◌, Bytes, List, [], ◌∷◌, Option, none, some, bytes_eq, if◌then◌else◌}

pub record KvStore : Type 1 where
  pub Store : Type 0
  pub get : Store → Bytes → Option Bytes
  pub set : Store → Bytes → Bytes → Store
  pub delete : Store → Bytes → Store
  -- `Iterator(nil, nil)`: all keys with their values; `none` is an error
  pub entries : Store → Option (List (Bytes × Bytes))

-- The value of a key in what an iterator yields.
abbrev pub value_of : Bytes → List (Bytes × Bytes) → Option Bytes
value_of k [] = none
value_of k ((j, v) ∷ es) = if bytes_eq j k then some v else value_of k es

-- An iterator yields each key of the store with its value.
pub record IsKvStore (kv : KvStore) : Type 0 where
  pub get-set :
      (s : kv.Store) (k j v : Bytes)
      → kv.get (kv.set s k v) j ≡ (if bytes_eq k j then some v else kv.get s j)
  pub get-delete :
      (s : kv.Store) (k j : Bytes)
      → kv.get (kv.delete s k) j ≡ (if bytes_eq k j then none else kv.get s j)
  pub entries-get :
      (s : kv.Store)
      → (es : List (Bytes × Bytes)) × (kv.entries s ≡ some es)
        × ((k : Bytes) → value_of k es ≡ kv.get s k)
