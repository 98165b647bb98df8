-- ===== src/Transactions/Overlay.antt =====
-- What a transaction knows of a cache: the entries of its context over what the server has.
use cpp_client.Prelude.{
  ℕ, ◌≡◌, refl, ◌∙◌, sym, ◌⊎◌, inl, inr, Bool, true, false, ◌||◌, List, Option, none, some,
  if◌then◌else◌, arith,
}
use cpp_client.Prelude.Maps.{
  insert, contains, bytes_key, nat_key, bytes_same, bytes_same_iff, lookup-inserted,
  contains-insert,
}
use cpp_client.Transactions.Context.{
  TransactionContext, MetadataValue, ContextEntry, has_value, get_value, set_value, add_value,
  set_value_as_deleted,
}
use cpp_client.Transactions.Entries.{seen, get_value-insert}
use cpp_client.Transactions.Manager.{get_transaction_context}
use cpp_client.Transactions.Cache.{CacheImpl, RemoteCacheBase, State, context, with_context}

-- The value behind a pointer; null stands for no value.
abbrev pub contents : {V : Type 0} → (ℕ → V) → Option ℕ → Option V
contents content none = none
contents content (some p) = some (content p)

module _ {V : Type 0} (content : ℕ → V) where
  -- `none` for a key of which nothing is known, `some none` for one that has no value.
  unfoldable pub known : TransactionContext → List ℕ → Option (Option V)
  unfolding has_value
  known tc j = if has_value j tc then some (contents content (get_value j tc).0) else none

  known_if :
      (b found : Bool) (x y : Option ℕ) (o : Option (Option V))
      → o ≡ (if found then some (contents content y) else none)
      → (if b || found then some (contents content (if b then x else y)) else none)
        ≡ (if b then some (contents content x) else o)
  known_if true found x y o h = refl
  known_if false found x y o h = sym h

  pub known-insert :
      (k j : List ℕ) (e : ContextEntry) (tc : TransactionContext) (freed : List ℕ)
      → known (record { context = insert k e tc.context; freed = freed }) j
        ≡ (if bytes_same k j then some (contents content (seen e)) else known tc j)
  unfolding known has_value
  known-insert k j e tc freed =
      rw (contains-insert k j e tc.context, get_value-insert k j e tc freed)
        (known_if (bytes_same k j) (contains j tc.context) (seen e) (get_value j tc).0 (known tc j)
          refl)

  pub known-write :
      (k j : List ℕ) (p : Option ℕ) (meta : MetadataValue) (d : Bool) (bits : ℕ)
      (tc : TransactionContext)
      → (known (set_value k p meta d tc) j
          ≡ (if bytes_same k j then some (contents content p) else known tc j))
        × (known (add_value k p meta d bits tc) j
            ≡ (if bytes_same k j then some (contents content p) else known tc j))
        × (known (set_value_as_deleted k tc) j ≡ (if bytes_same k j then some none else known tc j))
  unfolding set_value add_value set_value_as_deleted
  known-write k j p meta d bits tc =
      (known-insert k j _ tc _, known-insert k j _ tc _, known-insert k j _ tc _)

  -- A key that is there is read without a change.
  pub get_value-there :
      (k : List ℕ) (tc : TransactionContext) → has_value k tc ≡ true → (get_value k tc).1 ≡ tc
  unfolding get_value has_value
  get_value-there k tc h = rw h refl

module _ (r : CacheImpl) (c : RemoteCacheBase) where
  pub context-with_context :
      (tc : TransactionContext) (s : State r c) → context r c (with_context r c tc s) ≡ tc
  unfolding context with_context get_transaction_context
  context-with_context tc s =
      rw (lookup-inserted c.self tc s.transaction.sa.registered_cache, context) refl

module _ (r : CacheImpl) (c : RemoteCacheBase) {V : Type 0} (content : ℕ → V) where
  abbrev pub overlay : State r c → List ℕ → Option (Option V)
  overlay s = known content (context r c s)

  -- What is known of a key agrees with a value.
  abbrev pub Agrees : Option (Option V) → Option V → Type 0
  Agrees o x = (o ≡ none) ⊎ (o ≡ some x)

  -- An operation on one key met a value there, or took it from the server, and left another; what
  -- is known of the other keys, and the status, are as they were.
  pub record Did (s s' : State r c) (k : List ℕ) (was now : Option V) : Type 0 where
    pub met : Agrees (overlay s k) was
    pub left : (j : List ℕ) → overlay s' j ≡ (if bytes_same k j then some now else overlay s j)
    pub status : s'.transaction.status ≡ s.transaction.status

  pub left_at :
      {s s' : State r c} {k : List ℕ} {x w : Option V} → Did s s' k x w → overlay s' k ≡ some w
  left_at {k = k} d = ground (arith, d.left k, bytes_same_iff k k)

  overwrite :
      (b : Bool) (z w : Option V) (o o' : Option (Option V))
      → o' ≡ (if b then some w else o)
      → (if b then some z else o') ≡ (if b then some z else o)
  overwrite true z w o o' h = refl
  overwrite false z w o o' h = h

  Agrees-some : (o : Option (Option V)) (y w : Option V) → Agrees o y → o ≡ some w → y ≡ w
  Agrees-some o y w (inl e) h = cc
  Agrees-some o y w (inr e) h = cc

  -- Two operations on a key: the second meets what the first left.
  pub Did-twice :
      {s s' s'' : State r c} {k : List ℕ} {x y z : Option V} (w : Option V)
      → Did s s' k x w
      → Did s' s'' k y z
      → Did s s'' k x z
  Did-twice {s} {s'} {k = k} {z = z} w one two = record {
    met = one.met;
    left =
        λ j. two.left j ∙ overwrite (bytes_same k j) z w (overlay s j) (overlay s' j) (one.left j);
    status = two.status ∙ one.status;
  }

  pub met-left :
      {s s' s'' : State r c} {k : List ℕ} {x w y z : Option V}
      → Did s s' k x w
      → Did s' s'' k y z
      → y ≡ w
  met-left {s' = s'} {k = k} {w = w} {y = y} one two =
      Agrees-some (overlay s' k) y w two.met (left_at one)
