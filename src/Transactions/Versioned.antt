-- ===== src/Transactions/Versioned.antt =====
-- The rest of the operations of a cache inside a transaction (api/RemoteCacheBase.cpp): by version,
-- and containsKey.
use cpp_client.Prelude.{ℕ, Bool, true, false, List, Option, none, some, ◌==◌, if◌then◌else◌}
use cpp_client.Exceptions.{ok, throws, tx_state, Run, ◌>>=◌, return}
use cpp_client.Transactions.Context.{
  TransactionContext, get_value, set_value, set_value_as_deleted, entry_at,
}
use cpp_client.Transactions.Cache.{
  CacheImpl, RemoteCacheBase, State, context, on_context, in_world, choose, guarded,
  transactional_base_get, accept_read, expiring,
}

module _ (r : CacheImpl) (c : RemoteCacheBase) where
  unfoldable pub has_version : List ℕ → ℕ → TransactionContext → Bool
  unfolding entry_at
  has_version k version tc = let e = entry_at k tc in e.meta.version == version

  unfoldable pub destroy : ℕ → Bool → Run (State r c) Bool
  destroy p answer s = (ok answer, record s { world = r.value_destructor p s.world })

  -- Where the entry has the version, the context is changed and the copy that was read destroyed.
  unfoldable pub if_version :
      r.Key → ℕ → (TransactionContext → TransactionContext) → Option ℕ → Run (State r c) Bool
  unfolding has_version on_context destroy context
  if_version key version change none s = (ok false, s)
  if_version key version change (some old) s =
      if has_version (r.base_key_marshall key) version (context r c s)
      then (on_context r c (λ tc. (tt, change tc)) >>= λ _. destroy old true) s
      else (ok false, s)

  unfoldable pub base_replace_with_version : r.Key → ℕ → ℕ → ℕ → ℕ → Run (State r c) Bool
  unfolding choose guarded transactional_base_get if_version set_value
  base_replace_with_version key p version life idle =
      choose r c
        (guarded r c (
          transactional_base_get r c key
          >>= if_version key version
              (set_value (r.base_key_marshall key) (some p) (expiring r c life idle) true)))
        (r.replace_with_version key p version life idle)

  unfoldable pub base_remove_with_version : r.Key → ℕ → Run (State r c) Bool
  unfolding choose guarded transactional_base_get if_version set_value_as_deleted
  base_remove_with_version key version =
      choose r c
        (guarded r c (
          transactional_base_get r c key
          >>= if_version key version (set_value_as_deleted (r.base_key_marshall key))))
        (r.remove_with_version key version)

  unfoldable pub contained : r.Key → Option ℕ → Run (State r c) Bool
  unfolding in_world
  contained key (some p) = return true
  contained key none = in_world r c (r.contains_key key)

  unfoldable pub look_for : r.Key → Run (State r c) Bool
  unfolding accept_read on_context get_value contained
  look_for key s =
      if accept_read s.transaction.status
      then (on_context r c (get_value (r.base_key_marshall key)) >>= contained key) s
      else (throws tx_state, s)

  unfoldable pub base_contains_key : r.Key → Run (State r c) Bool
  unfolding choose look_for
  base_contains_key key = choose r c (look_for key) (r.contains_key key)
