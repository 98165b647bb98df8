-- ===== src/Tests/Transactions.antt =====
-- One cache in the transaction of one thread, before a server that prepares and commits.
use cpp_client.Prelude.{ℕ, ◌+◌, ◌≡◌, ◌≢◌, refl, List, [], ◌∷◌, some}
use cpp_client.Prelude.Maps.{erase, lookup, nat_key}
use cpp_client.Exceptions.{ok, fault}
use cpp_client.Transactions.Context.{MetadataValue, free_all, TransactionContext, new_context}
use cpp_client.Transactions.Remote.{Xid, Caches, no_answers, remote_prepare_commit, remote_commit}
use cpp_client.Transactions.Manager.{Transaction, active, State, commit}
use cpp_client.Transactions.Verdict.{no_more, answered, verdict, remote_commit-verdict}
use cpp_client.Transactions.Ends.{CommitEnds, commit-CommitEnds}

abbrev an_xid : Xid
an_xid = record { global_id = 1 ∷ []; branch_id = 2 ∷ [] }

abbrev caches : Caches
caches = record {
  World = ℕ;
  prepare_commit = λ c x ctx w. (ok 0, w + 1);
  commit = λ c x ctx w. (ok 0, w + 1);
  rollback = λ c x ctx w. (ok 0, w + 1);
  new_xid = λ w. (an_xid, w + 1);
}

abbrev one_cache : List (ℕ × TransactionContext)
one_cache = (100, new_context) ∷ []

abbrev running : Transaction
running = record {
  status = active;
  xid = an_xid;
  sa = record { registered_cache = one_cache; prepared_cache = [] };
}

abbrev one_thread : State caches
one_thread = record { current_transactions = (1, running) ∷ []; freed = []; world = 0 }

commit_one_cache :
    commit caches 1 one_thread
    ≡ (ok tt, record { current_transactions = []; freed = []; world = 2 })
unfolding commit lookup remote_prepare_commit remote_commit erase free_all
commit_one_cache = refl

remote_commit-verdict_example :
    remote_commit caches an_xid one_cache no_answers 0 ≡ (verdict (0 ∷ []), 1)
remote_commit-verdict_example =
    remote_commit-verdict caches an_xid (answered 100 new_context 0 refl no_more)

has_running : lookup 1 one_thread.current_transactions ≡ some running
unfolding lookup
has_running = refl

commit-CommitEnds_example :
    CommitEnds caches 1 running one_thread.world (commit caches 1 one_thread)
commit-CommitEnds_example = commit-CommitEnds caches 1 one_thread running has_running refl

ok_defined : (c : ℕ) (ctx : TransactionContext) (u : ℕ) → (caches.rollback c an_xid ctx u).0 ≢ fault
ok_defined c ctx u = λ f. cc

abbrev metadata : MetadataValue
metadata = record { version = 4; created = 0; lifespan = 0; last_used = 0; max_idle = 0 }
