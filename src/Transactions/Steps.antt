-- ===== src/Transactions/Steps.antt =====
-- Reading inside a transaction as a step on what the transaction knows of the cache.
use cpp_client.Prelude.{
  ℕ, ◌≡◌, refl, ◌∙◌, ap, sym, subst, inl, inr, Bool, true, false, ◌||◌, List, Option, none, some,
  if◌then◌else◌, arith,
}
use cpp_client.Prelude.Maps.{
  contains, bytes_key, nat_key, bytes_same, bytes_same_iff, contains-insert,
}
use cpp_client.Exceptions.{Outcome, ok, throws, fault, Run, ◌>>=◌, then_run}
use cpp_client.Transactions.Context.{
  TransactionContext, MetadataValue, has_value, get_value, add_value,
}
use cpp_client.Transactions.Entries.{get_value-writes}
use cpp_client.Transactions.Cache.{
  CacheImpl, RemoteCacheBase, State, context, with_context, on_context, in_world, add_remote,
  read_value, non_existing,
}
use cpp_client.Transactions.Overlay.{
  contents, known, known-write, get_value-there, context-with_context, overlay, Agrees, Did,
}

-- What holds of an answer that is no exception.
abbrev pub OnOk : {S A : Type 0} → (A → S → Type 0) → Outcome A × S → Type 0
OnOk P (ok a, s) = P a s
OnOk P (throws e, s) = Unit {0}
OnOk P (fault, s) = Unit {0}

pub then_run-OnOk :
    {S A B : Type 0} (P : A → S → Type 0) (Q : B → S → Type 0) (k : A → Run S B) (x : Outcome A × S)
    → OnOk P x
    → ((a : A) (s : S) → P a s → OnOk Q (k a s))
    → OnOk Q (then_run k x)
then_run-OnOk P Q k (ok a, s) h next = next a s h
then_run-OnOk P Q k (throws e, s) h next = tt
then_run-OnOk P Q k (fault, s) h next = tt

pub OnOk-map :
    {S A : Type 0} (P Q : A → S → Type 0) (x : Outcome A × S)
    → OnOk P x
    → ((a : A) (s : S) → P a s → Q a s)
    → OnOk Q x
OnOk-map P Q (ok a, s) h f = f a s h
OnOk-map P Q (throws e, s) h f = tt
OnOk-map P Q (fault, s) h f = tt

pub if-OnOk :
    {S A : Type 0} (P : A → S → Type 0) (b : Bool) (x y : Outcome A × S)
    → (b ≡ true → OnOk P x)
    → (b ≡ false → OnOk P y)
    → OnOk P (if b then x else y)
if-OnOk P true x y t e = t refl
if-OnOk P false x y t e = e refl

module _ (r : CacheImpl) (c : RemoteCacheBase) {V : Type 0} (content : ℕ → V) where
  abbrev pub DidTo : State r c → State r c → List ℕ → Option V → Option V → Type 0
  DidTo = Did r c content

  -- A context in the place of the cache's.
  pub wrote-Did :
      (s : State r c) (tc : TransactionContext) (k : List ℕ) (was now : Option V)
      → Agrees r c content (overlay r c content s k) was
      → ((j : List ℕ)
          → known content tc j ≡ (if bytes_same k j then some now else overlay r c content s j))
      → DidTo s (with_context r c tc s) k was now
  unfolding with_context
  wrote-Did s tc k was now agrees h = record {
    met = agrees;
    left = λ j. ap (λ t. known content t j) (context-with_context r c tc s) ∙ h j;
    status = refl;
  }

  found :
      (k : List ℕ) (tc : TransactionContext)
      → has_value k tc ≡ true
      → known content tc k ≡ some (contents content (get_value k tc).0)
  unfolding known
  found k tc h = rw h refl

  missing :
      (k : List ℕ) (tc : TransactionContext) → has_value k tc ≡ false → known content tc k ≡ none
  unfolding known
  missing k tc h = rw h refl

  unchanged_if :
      (b : Bool) (x o o' : Option (Option V)) → (b ≡ true → o ≡ x) → o ≡ (if b then x else o)
  unchanged_if true x o o' h = h refl
  unchanged_if false x o o' h = refl

  same_value :
      (k j : List ℕ) (tc : TransactionContext) (v : Option V)
      → known content tc k ≡ some v
      → known content tc j ≡ (if bytes_same k j then some v else known content tc j)
  same_value k j tc v h =
      unchanged_if (bytes_same k j) (some v) (known content tc j) none
        λ e. subst (λ i. known content tc i ≡ some v) ((bytes_same_iff k j).0 e) h

  read_there-Did :
      (s : State r c) (k : List ℕ)
      → has_value k (context r c s) ≡ true
      → OnOk
          (λ v s'. DidTo s s' k (contents content v) (contents content v))
          (on_context r c (get_value k) s)
  unfolding on_context
  read_there-Did s k h =
      let tc = context r c s in
      let at_key = found k tc h in
      wrote-Did s (get_value k tc).1 k _ _ (inr at_key) λ j.
        ap (λ t. known content t j) (get_value-there content k tc h) ∙ same_value k j tc _ at_key

  has_value-add_value :
      (k : List ℕ) (p : Option ℕ) (meta : MetadataValue) (d : Bool) (bits : ℕ)
      (tc : TransactionContext)
      → has_value k (add_value k p meta d bits tc) ≡ true
  unfolding has_value add_value
  has_value-add_value k p meta d bits tc =
      contains-insert k k _ tc.context
      ∙ ap (λ b. b || contains k tc.context) ((bytes_same_iff k k).1 refl)

  added-Did :
      (s : State r c) (k : List ℕ) (x : Option ℕ × MetadataValue)
      → overlay r c content s k ≡ none
      → OnOk (λ v s'. DidTo s s' k (contents content v) (contents content v)) (add_remote r c k x s)
  unfolding add_remote on_context
  added-Did s k (p, meta) absent =
      let bits : ℕ = elim p [ none ↦ non_existing | some q ↦ 0 ] in
      let tc = add_value k p meta true bits (context r c s) in
      let seen_there = (get_value-writes k k p meta true bits (context r c s)).1 in
      let value : (get_value k tc).0 ≡ p = ground (arith, seen_there, bytes_same_iff k k) in
      wrote-Did s (get_value k tc).1 k _ _ (inl absent) λ j.
        ap (λ t. known content t j)
          (get_value-there content k tc (has_value-add_value k p meta true bits (context r c s)))
        ∙ (known-write content k j p meta true bits (context r c s)).1
        ∙ ap (λ v. if bytes_same k j then some (contents content v) else overlay r c content s j)
            (sym value)

  -- A part that touches the world alone.
  kept :
      {A : Type 0} (s : State r c) (x : Outcome A × r.World)
      → OnOk
          (λ a s'. s'.transaction ≡ s.transaction)
          (let (a, w) = x in (a, record s { world = w }))
  kept s (ok a, w) = refl
  kept s (throws e, w) = tt
  kept s (fault, w) = tt

  in_world-kept :
      {A : Type 0} (m : r.World → Outcome A × r.World) (s : State r c)
      → OnOk (λ a s'. s'.transaction ≡ s.transaction) (in_world r c m s)
  unfolding in_world
  in_world-kept m s = kept s (m s.world)

  pub overlay-kept :
      (s t : State r c)
      → t.transaction ≡ s.transaction
      → (j : List ℕ) → overlay r c content t j ≡ overlay r c content s j
  unfolding context
  overlay-kept s t e j = ap (λ u. known content (context r c (record t { transaction = u })) j) e

  -- The same transaction in another world, at the end of a step and at its start.
  pub moved-Did :
      {s s' t : State r c} {k : List ℕ} {x y : Option V}
      → DidTo s s' k x y
      → t.transaction ≡ s'.transaction
      → DidTo s t k x y
  moved-Did {s} {s'} {t} {k} d e = record {
    met = d.met;
    left = λ j. overlay-kept _ _ e j ∙ d.left j;
    status = ap (λ u. u.status) e ∙ d.status;
  }

  pub before-Did :
      {s s' t : State r c} {k : List ℕ} {x y : Option V}
      → ((j : List ℕ) → overlay r c content t j ≡ overlay r c content s j)
      → t.transaction.status ≡ s.transaction.status
      → DidTo t s' k x y
      → DidTo s s' k x y
  before-Did {k = k} {x = x} {y = y} same e d = record {
    met = subst (λ o. Agrees r c content o x) (same k) d.met;
    left = λ j. d.left j ∙ ap (λ o. if bytes_same k j then some y else o) (same j);
    status = d.status ∙ e;
  }

  read_missing-Did :
      (s : State r c) (key : r.Key)
      → has_value (r.base_key_marshall key) (context r c s) ≡ false
      → OnOk
          (λ v s'. DidTo s s' (r.base_key_marshall key) (contents content v) (contents content v))
          ((on_context r c (λ tc. (tt, tc))
              >>= (λ _. in_world r c (r.get_with_metadata key))
              >>= add_remote r c (r.base_key_marshall key))
            s)
  unfolding on_context
  read_missing-Did s key h =
      let k = r.base_key_marshall key in
      let registered = with_context r c (context r c s) s in
      let same : (j : List ℕ) → overlay r c content registered j ≡ overlay r c content s j =
        λ j. ap (λ t. known content t j) (context-with_context r c (context r c s) s) in
      then_run-OnOk (λ a t. t.transaction ≡ registered.transaction) _ _ _
        (in_world-kept (r.get_with_metadata key) registered)
        λ x t e.
          let now : (j : List ℕ) → overlay r c content t j ≡ overlay r c content s j =
            λ j. overlay-kept registered t e j ∙ same j in
          OnOk-map _ _ _ (added-Did t k x (now k ∙ missing k (context r c s) h))
            λ v s'. before-Did now (ap (λ u. u.status) e)

  pub read_value-Did :
      (s : State r c) (key : r.Key)
      → OnOk
          (λ v s'. DidTo s s' (r.base_key_marshall key) (contents content v) (contents content v))
          (read_value r c key s)
  unfolding read_value
  read_value-Did s key =
      if-OnOk _ (has_value (r.base_key_marshall key) (context r c s)) _ _
        (read_there-Did s (r.base_key_marshall key)) (read_missing-Did s key)
