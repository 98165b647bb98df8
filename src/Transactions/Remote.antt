-- ===== src/Transactions/Remote.antt =====
-- The two phases over the caches of a transaction: remotePrepareCommit, remoteCommit and
-- remoteRollback of api/TransactionManager.cpp, and how they judge the answers.
use cpp_client.Prelude.{
  ℕ, Bool, true, false, not, ◌&&◌, ◌||◌, List, [], ◌∷◌, none, some, ◌==◌, if◌then◌else◌,
}
use cpp_client.Prelude.Maps.{lookup, insert, nat_key}
use cpp_client.Exceptions.{Outcome, ok, throws, fault, tx_remote_state}
use cpp_client.Transactions.Context.{TransactionContext}

-- TransactionRemoteStatus, an unsigned int.
abbrev pub xa_ok : ℕ
xa_ok = 0x00

abbrev pub xa_rdonly : ℕ
xa_rdonly = 0x03

abbrev pub xa_heurcom : ℕ
xa_heurcom = 0x07

abbrev pub xaer_nota : ℕ
xaer_nota = 0xFFFF_FFFC

abbrev pub xa_heurmix : ℕ
xa_heurmix = 0x05

abbrev pub xa_heurhaz : ℕ
xa_heurhaz = 0x08

abbrev pub xa_heurrb : ℕ
xa_heurrb = 0x06

abbrev pub xa_rbrollback : ℕ
xa_rbrollback = 0x64

pub record Xid : Type 0 where
  pub global_id : List ℕ
  pub branch_id : List ℕ

-- The caches of a transaction, by the addresses of their objects. A prepared cache holds a pointer
-- to the context that is registered for it: here the address under which it is registered.
pub record SynchronizationAdapter : Type 0 where
  pub registered_cache : List (ℕ × TransactionContext)
  pub prepared_cache : List (ℕ × ℕ)

-- What a cache does over the network: base_prepareCommit, base_commit, base_rollback; and the
-- making of a new XID.
pub record Caches : Type 1 where
  pub World : Type 0
  pub prepare_commit : ℕ → Xid → TransactionContext → World → Outcome ℕ × World
  pub commit : ℕ → Xid → TransactionContext → World → Outcome ℕ × World
  pub rollback : ℕ → Xid → TransactionContext → World → Outcome ℕ × World
  pub new_xid : World → Xid × World

-- The local variables of remoteCommit and remoteRollback.
pub record Tally : Type 0 where
  pub has_commit : Bool
  pub has_rollback : Bool
  pub already_forgot : Bool
  pub unknown : Bool
  pub unknown_error_code : ℕ

abbrev pub no_answers : Tally
no_answers = record {
  has_commit = false;
  has_rollback = false;
  already_forgot = false;
  unknown = false;
  unknown_error_code = 0;
}

-- The switch of remoteCommit.
unfoldable pub count_commit : Tally → ℕ → Tally
count_commit t ret =
    if (ret == xa_ok) || ((ret == xa_rdonly) || (ret == xa_heurcom))
    then record t { has_commit = true }
    else if ret == xaer_nota
    then record t { already_forgot = true }
    else if (ret == xa_heurmix) || (ret == xa_heurhaz)
    then record t { has_commit = true; has_rollback = true }
    else if ret == xa_heurrb
    then record t { has_rollback = true }
    else record t { unknown = true; unknown_error_code = ret }

-- The switch of remoteRollback.
unfoldable pub count_rollback : Tally → ℕ → Tally
count_rollback t ret =
    if (ret == xa_ok) || ((ret == xa_rdonly) || (ret == xa_heurrb))
    then record t { has_rollback = true }
    else if ret == xaer_nota
    then record t { already_forgot = true }
    else if (ret == xa_heurmix) || (ret == xa_heurhaz)
    then record t { has_commit = true; has_rollback = true }
    else if ret == xa_heurcom
    then record t { has_commit = true }
    else record t { unknown = true; unknown_error_code = ret }

-- What follows the loop of remoteCommit.
unfoldable pub judge_commit : Tally → Outcome (Unit {0})
judge_commit t =
    if not t.has_commit && not t.has_rollback
    then (if t.already_forgot
        then throws (tx_remote_state xaer_nota)
        else if t.unknown
        then throws (tx_remote_state t.unknown_error_code)
        else ok tt)
    else if t.has_commit && t.has_rollback
    then throws (tx_remote_state xa_heurmix)
    else if t.has_rollback
    then throws (tx_remote_state xa_heurrb)
    else ok tt

-- What follows the loop of remoteRollback.
unfoldable pub judge_rollback : Tally → Outcome (Unit {0})
judge_rollback t =
    if not t.has_commit && not t.has_rollback
    then (if t.already_forgot
        then throws (tx_remote_state xaer_nota)
        else if t.unknown
        then throws (tx_remote_state t.unknown_error_code)
        else ok tt)
    else if t.has_commit && t.has_rollback
    then throws (tx_remote_state xa_heurmix)
    else if t.has_commit
    then throws (tx_remote_state xa_heurcom)
    else ok tt

module _ (r : Caches) where
  abbrev pub Prepared : Type 0
  Prepared = Outcome ℕ × List (ℕ × ℕ) × r.World

  -- What remotePrepareCommit does with an answer of the cache `c`.
  unfoldable pub prepared :
      (Bool → List (ℕ × ℕ) → r.World → Prepared)
      → ℕ
      → Bool
      → List (ℕ × ℕ)
      → Outcome ℕ × r.World
      → Prepared
  prepared later c read_only done (ok ret, w) =
      if ret == xa_ok
      then later false (insert c c done) w
      else if ret == xa_rdonly
      then later read_only done w
      else (throws (tx_remote_state ret), insert c c done, w)
  prepared later c read_only done (throws e, w) = (throws e, done, w)
  prepared later c read_only done (fault, w) = (fault, done, w)

  unfoldable pub remote_prepare_commit :
      Xid → List (ℕ × TransactionContext) → Bool → List (ℕ × ℕ) → r.World → Prepared
  unfolding prepared
  remote_prepare_commit xid [] read_only done w =
      (ok (if read_only then xa_rdonly else xa_ok), done, w)
  remote_prepare_commit xid ((c, ctx) ∷ rest) read_only done w =
      prepared (remote_prepare_commit xid rest) c read_only done (r.prepare_commit c xid ctx w)

  unfoldable pub committed :
      (Tally → r.World → Outcome (Unit {0}) × r.World)
      → Tally
      → Outcome ℕ × r.World
      → Outcome (Unit {0}) × r.World
  unfolding count_commit
  committed later t (ok ret, w) = later (count_commit t ret) w
  committed later t (throws e, w) = (throws e, w)
  committed later t (fault, w) = (fault, w)

  -- remoteCommit goes over the registered caches.
  unfoldable pub remote_commit :
      Xid → List (ℕ × TransactionContext) → Tally → r.World → Outcome (Unit {0}) × r.World
  unfolding committed judge_commit
  remote_commit xid [] t w = (judge_commit t, w)
  remote_commit xid ((c, ctx) ∷ rest) t w =
      committed (remote_commit xid rest) t (r.commit c xid ctx w)

  unfoldable pub rolled_back :
      (Tally → r.World → Outcome (Unit {0}) × r.World)
      → Tally
      → Outcome ℕ × r.World
      → Outcome (Unit {0}) × r.World
  unfolding count_rollback
  rolled_back later t (ok ret, w) = later (count_rollback t ret) w
  rolled_back later t (throws e, w) = (throws e, w)
  rolled_back later t (fault, w) = (fault, w)

  -- remoteRollback goes over the prepared caches; a pointer to no registered context is undefined.
  unfoldable pub remote_rollback :
      Xid
      → List (ℕ × TransactionContext)
      → List (ℕ × ℕ)
      → Tally
      → r.World
      → Outcome (Unit {0}) × r.World
  unfolding rolled_back judge_rollback
  remote_rollback xid registered [] t w = (judge_rollback t, w)
  remote_rollback xid registered ((c, p) ∷ rest) t w = elim (lookup p registered) [
    | none ↦ (fault, w)
    | some ctx ↦ rolled_back (remote_rollback xid registered rest) t (r.rollback c xid ctx w)
  ]
