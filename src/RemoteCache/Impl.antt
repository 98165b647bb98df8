-- ===== src/RemoteCache/Impl.antt =====
-- The methods of impl/RemoteCacheImpl.cpp: each makes an operation of the factory and executes it.
use cpp_client.Prelude.{
  ℕ, Bool, true, false, List, [], ◌∷◌, Option, none, some, ◌==◌, if◌then◌else◌,
}
use cpp_client.Prelude.Words.{u32}
use cpp_client.Exceptions.{Outcome, ok, throws, not_started, Run, ◌>>=◌, return}
use cpp_client.Operations.Exchange.{Versioned, success, modified_key, no_such_key}
use cpp_client.Operations.Requests.{
  Request, gets, gets_with_version, gets_with_metadata, asks_for, removes, removes_if_unmodified,
  puts, puts_if_absent, replaces, replaces_if_unmodified, clears, counts, asks_stats, gets_all,
  commits, rolls_back,
}
use cpp_client.Topology.{TopologyInfo, CacheName}
use cpp_client.Transactions.Remote.{Xid}
use cpp_client.Transactions.Context.{MetadataValue}
use cpp_client.RemoteCache.Factory.{
  OperationsFactory, get_flags, add_flags, set_flags, default_lifespan, default_max_idle,
}

-- What the operation of a request answers.
abbrev pub ResultOf : Request → Type 0
ResultOf (gets k) = List ℕ
ResultOf (gets_with_version k) = ℕ × List ℕ
ResultOf (gets_with_metadata k) = MetadataValue × List ℕ
ResultOf (asks_for k) = Bool
ResultOf (removes k) = List ℕ
ResultOf (removes_if_unmodified k version) = Versioned
ResultOf (puts k v l i) = List ℕ
ResultOf (puts_if_absent k v l i) = List ℕ
ResultOf (replaces k v l i) = List ℕ
ResultOf (replaces_if_unmodified k v l i version) = Versioned
ResultOf clears = Unit {0}
ResultOf counts = ℕ
ResultOf asks_stats = List (List ℕ × List ℕ)
ResultOf (gets_all ks) = List (List ℕ × List ℕ)
ResultOf (commits format xid) = ℕ
ResultOf (rolls_back format xid) = ℕ

-- The operations with their flags through the retry loop, the topologies of the transport factory, and
-- the name and the marshallers of a cache, whose values are pointers.
pub record Executes : Type 1 where
  pub World : Type 0
  pub Key : Type 0
  pub Value : Type 0
  pub topology_info : World → TopologyInfo
  pub name : CacheName
  pub key_marshall : Key → List ℕ
  pub value_marshall : Value → List ℕ
  pub value_unmarshall : List ℕ → Value
  pub execute : ℕ → (q : Request) → World → Outcome (ResultOf q) × World

module _ (r : Executes) where
  pub record RemoteCacheImpl : Type 0 where
    pub is_started : Bool
    pub factory : OperationsFactory
    pub world : r.World

  unfoldable pub assert_is_started : Run RemoteCacheImpl (Unit {0})
  assert_is_started s = if s.is_started then (ok tt, s) else (throws not_started, s)

  -- A new operation takes the flags of the factory.
  unfoldable pub issue : (q : Request) → Run RemoteCacheImpl (ResultOf q)
  unfolding get_flags
  issue q s =
      let (flags, later) = get_flags s.factory in
      let (x, w) = r.execute flags q s.world in (x, record s { factory = later; world = w })

  -- `bytes.data() ? … : NULL`, where the data of an empty vector is null.
  unfoldable pub unmarshalled : List ℕ → Option r.Value
  unmarshalled [] = none
  unmarshalled (b ∷ bs) = some (r.value_unmarshall (b ∷ bs))

  abbrev pub answer_value : List ℕ → Run RemoteCacheImpl (Option r.Value)
  answer_value bytes = return (unmarshalled bytes)

  unfoldable pub apply_default_expiration_flags : ℕ → ℕ → Run RemoteCacheImpl (Unit {0})
  unfolding add_flags
  apply_default_expiration_flags life idle s =
      let one = if life == 0 then add_flags default_lifespan s.factory else s.factory in
      let two = if idle == 0 then add_flags default_max_idle one else one in
      (ok tt, record s { factory = two })

  unfoldable pub get : r.Key → Run RemoteCacheImpl (Option r.Value)
  unfolding assert_is_started issue unmarshalled
  get k = assert_is_started >>= λ _. issue (gets (r.key_marshall k)) >>= answer_value

  -- The times become numbers of 32 bits in the arguments of the factory.
  unfoldable pub put : r.Key → r.Value → ℕ → ℕ → Run RemoteCacheImpl (Option r.Value)
  unfolding assert_is_started apply_default_expiration_flags issue unmarshalled
  put k v life idle =
      assert_is_started
      >>= (λ _. apply_default_expiration_flags life idle)
      >>= (λ _. issue (puts (r.key_marshall k) (r.value_marshall v) (u32 life) (u32 idle)))
      >>= answer_value

  unfoldable pub put_if_absent : r.Key → r.Value → ℕ → ℕ → Run RemoteCacheImpl (Option r.Value)
  unfolding assert_is_started apply_default_expiration_flags issue unmarshalled
  put_if_absent k v life idle =
      assert_is_started
      >>= (λ _. apply_default_expiration_flags life idle)
      >>= (λ _.
          issue (puts_if_absent (r.key_marshall k) (r.value_marshall v) (u32 life) (u32 idle)))
      >>= answer_value

  unfoldable pub replace : r.Key → r.Value → ℕ → ℕ → Run RemoteCacheImpl (Option r.Value)
  unfolding assert_is_started apply_default_expiration_flags issue unmarshalled
  replace k v life idle =
      assert_is_started
      >>= (λ _. apply_default_expiration_flags life idle)
      >>= (λ _. issue (replaces (r.key_marshall k) (r.value_marshall v) (u32 life) (u32 idle)))
      >>= answer_value

  unfoldable pub remove : r.Key → Run RemoteCacheImpl (Option r.Value)
  unfolding assert_is_started issue unmarshalled
  remove k = assert_is_started >>= λ _. issue (removes (r.key_marshall k)) >>= answer_value

  unfoldable pub contains_key : r.Key → Run RemoteCacheImpl Bool
  unfolding assert_is_started issue
  contains_key k = assert_is_started >>= λ _. issue (asks_for (r.key_marshall k))

  -- VersionedOperationResponse::isUpdated
  unfoldable pub is_updated : Versioned → Bool
  is_updated (v, success) = true
  is_updated (v, modified_key) = false
  is_updated (v, no_such_key) = false

  unfoldable pub replace_with_version : r.Key → r.Value → ℕ → ℕ → ℕ → Run RemoteCacheImpl Bool
  unfolding assert_is_started issue is_updated
  replace_with_version k v version life idle =
      assert_is_started
      >>= (λ _. issue (
          replaces_if_unmodified (r.key_marshall k) (r.value_marshall v) (u32 life) (u32 idle)
            version))
      >>= λ x. return (is_updated x)

  unfoldable pub remove_with_version : r.Key → ℕ → Run RemoteCacheImpl Bool
  unfolding assert_is_started issue is_updated
  remove_with_version k version =
      assert_is_started >>= (λ _. issue (removes_if_unmodified (r.key_marshall k) version)) >>= λ x.
      return (is_updated x)

  unfoldable pub get_with_version : r.Key → Run RemoteCacheImpl (Option r.Value × ℕ)
  unfolding assert_is_started issue unmarshalled
  get_with_version k =
      assert_is_started >>= (λ _. issue (gets_with_version (r.key_marshall k))) >>= λ x.
      return (unmarshalled x.1, x.0)

  unfoldable pub get_with_metadata : r.Key → Run RemoteCacheImpl (Option r.Value × MetadataValue)
  unfolding assert_is_started issue unmarshalled
  get_with_metadata k =
      assert_is_started >>= (λ _. issue (gets_with_metadata (r.key_marshall k))) >>= λ x.
      return (unmarshalled x.1, x.0)

  unfoldable pub stats : Run RemoteCacheImpl (List (List ℕ × List ℕ))
  unfolding assert_is_started issue
  stats = assert_is_started >>= λ _. issue asks_stats

  unfoldable pub clear : Run RemoteCacheImpl (Unit {0})
  unfolding assert_is_started issue
  clear = assert_is_started >>= λ _. issue clears

  unfoldable pub size : Run RemoteCacheImpl ℕ
  unfolding assert_is_started issue
  size = assert_is_started >>= λ _. issue counts

  -- commit and rollback do not ask whether the manager is started.
  unfoldable pub commit : ℕ → Xid → Run RemoteCacheImpl ℕ
  unfolding issue
  commit format xid = issue (commits format xid)

  unfoldable pub rollback : ℕ → Xid → Run RemoteCacheImpl ℕ
  unfolding issue
  rollback format xid = issue (rolls_back format xid)

  unfoldable pub with_flags : ℕ → RemoteCacheImpl → RemoteCacheImpl
  unfolding set_flags
  with_flags g s = record s { factory = set_flags g s.factory }
