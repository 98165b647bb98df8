-- ===== src/Balancer.antt =====
-- impl/transport/tcp/RoundRobinBalancingStrategy.cpp: the next server of a request, in rotation,
-- leaving out those that have failed.
pub mod RoundRobin
use cpp_client.Prelude.{
  [], ℕ, zero, suc, ◌+◌, Bool, List, length, get_elem?, Option, none, some, leb, if◌then◌else◌,
}
use cpp_client.Address.{Address}
use cpp_client.Exceptions.{Outcome, ok, throws, fault, client}

pub record Balancer : Type 0 where
  pub servers : List Address
  pub index : ℕ

unfoldable pub new_instance : Balancer
new_instance = record { servers = []; index = 0 }

-- The index is kept if it is still in range.
unfoldable pub set_servers : List Address → Balancer → Balancer
set_servers s b = record { servers = s; index = if leb (length s) b.index then 0 else b.index }

-- `if (++index >= servers.size()) index = 0;`
abbrev pub advance : Balancer → ℕ
advance b = if leb (length b.servers) (b.index + 1) then 0 else b.index + 1

-- The rounds that are left of `for (i = 0; i < servers.size(); i++)`; `failed` tests membership in
-- the set of failed servers.
unfoldable pub next_loop : ℕ → (Address → Bool) → Balancer → Outcome Address × Balancer
next_loop zero failed b = (throws client, b)
next_loop (suc rounds) failed b =
    let b' = record b { index = advance b } in
    let rest = next_loop rounds failed b' in
    elim (get_elem? b.servers (advance b)) [
      | none ↦ (fault, b')
      | some server ↦ if failed server then rest else (ok server, b')
    ]

unfoldable pub next_server : (Address → Bool) → Balancer → Outcome Address × Balancer
next_server failed b = next_loop (length b.servers) failed b
