-- ===== src/Tests/Retry.antt =====
-- A factory of one server that answers at the third attempt, with one other cluster to switch to.
use cpp_client.Prelude.{
  Bool, ℕ, suc, zero, ◌+◌, ◌*◌, ◌-◌, ◌<◌, ◌≡◌, refl, true, false, [], some, arith,
}
use cpp_client.Exceptions.{Outcome, ok, throws, transport}
use cpp_client.Retry.{next_count, try_on, should_retry, Factory, execute}
use cpp_client.Retry.Rounds.{switches, tries, execute-ends}

-- The transports lent, and the clusters left.
pub record Pools : Type 0 where
  pub lent : ℕ
  pub clusters : ℕ

abbrev use_cluster : Pools → Outcome Bool × Pools
use_cluster w = elim w.clusters [
  | zero ↦ (ok false, w)
  | suc n ↦ (ok true, record w { clusters = n })
]

abbrev one_server : Factory
one_server = record {
  World = Pools;
  Transport = ℕ;
  Result = ℕ;
  max_retries = 2;
  get_transport = λ s w. (ok 7, record w { lent = w.lent + 1 });
  execute_operation = λ t w. (elim w.clusters [ zero ↦ ok 5 | suc n ↦ throws (transport [] 0) ], w);
  release_transport = λ t w. (ok tt, record w { lent = w.lent - 1 });
  invalidate_transport = λ a t w. (ok tt, record w { lent = w.lent - 1 });
  cluster_switch = use_cluster;
}

abbrev two_clusters : Pools
two_clusters = record { lent = 0; clusters = 1 }

answers_after_a_switch :
    execute one_server 5 two_clusters ≡ some (ok 5, record { lent = 0; clusters = 0 })
unfolding execute
answers_after_a_switch = refl

enough : (switches one_server 5 0 [] two_clusters + 1) * tries one_server < 5
unfolding switches should_retry try_on next_count
enough = omega arith

execute-ends_example : (x : Outcome ℕ × Pools) × (execute one_server 5 two_clusters ≡ some x)
execute-ends_example = execute-ends one_server 5 two_clusters enough

-- A server that executes the operation and throws when its transport is given back.
abbrev refusing : Factory
refusing = record {
  World = ℕ;
  Transport = ℕ;
  Result = ℕ;
  max_retries = 2;
  get_transport = λ s w. (ok 7, w);
  execute_operation = λ t w. (ok 5, w + 1);
  release_transport = λ t w. (throws (transport [] 0), w);
  invalidate_transport = λ a t w. (ok tt, w);
  cluster_switch = λ w. (ok false, w);
}

executed_twice : execute refusing 3 0 ≡ some (throws (transport [] 0), 2)
unfolding execute
executed_twice = refl
