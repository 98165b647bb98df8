-- ===== src/RemoteCache/Found.antt =====
-- What the operations of getAll find, one for each part of the keys: impl/RemoteCacheImpl.cpp.
-- getHashAwareServer, as it is, gives every key that it gives a server the empty address, so that
-- getAll itself makes one part at most.
use cpp_client.Prelude.{ℕ, Bool, false, ◌||◌, List, [], ◌∷◌, Option, none, some, if◌then◌else◌, ◌≡◌}
use cpp_client.Prelude.Maps.{bytes_same, bytes_key, lookup}
use cpp_client.Exceptions.{ok}
use cpp_client.Address.{Address, address_key}
use cpp_client.Operations.Requests.{gets_all}
use cpp_client.RemoteCache.Impl.{Executes}
use cpp_client.RemoteCache.GetAll.{Keys, Entries}

abbrev pub has : List ℕ → Keys → Bool
has j [] = false
has j (k ∷ ks) = bytes_same k j || has j ks

-- A key stands in one of the parts.
abbrev pub is_in_part : List ℕ → List (Address × Keys) → Bool
is_in_part j [] = false
is_in_part j ((a, ks) ∷ m) = has j ks || is_in_part j m

abbrev pub or_else : Option (List ℕ) → Option (List ℕ) → Option (List ℕ)
or_else (some v) o = some v
or_else none o = o

module _ (r : Executes) (stored : r.World → Entries) where
  -- Servers that answer a GetAll with the entries that they store of its keys, and store them still.
  pub record Answering : Type 0 where
    pub found : ℕ → Keys → r.World → Entries
    pub after : ℕ → Keys → r.World → r.World
    pub executes :
        (flags : ℕ) (ks : Keys) (w : r.World)
        → r.execute flags (gets_all ks) w ≡ (ok (found flags ks w), after flags ks w)
    pub finds :
        (flags : ℕ) (ks : Keys) (w : r.World) (j : List ℕ)
        → lookup j (found flags ks w) ≡ (if has j ks then lookup j (stored w) else none)
    pub keeps : (flags : ℕ) (ks : Keys) (w : r.World) → stored (after flags ks w) ≡ stored w
