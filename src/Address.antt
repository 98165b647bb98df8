-- ===== src/Address.antt =====
-- InetSocketAddress (include/infinispan/hotrod/InetSocketAddress.h and
-- impl/transport/tcp/InetSocketAddress.cpp): the host name and the port. The set of resolved addresses
-- takes no part in the order, and so in no map or set of addresses.
use cpp_client.Prelude.{
  ℕ, ◌≡◌, ◌↔◌, Bool, true, ◌&&◌, List, [], arith, ltb, ◌==◌, ==_iff, if◌then◌else◌,
}
use cpp_client.Prelude.Words.{u16}
use cpp_client.Prelude.Maps.{Key, bytes_same, bytes_same_iff, bytes_less}

pub record Address : Type 0 where
  pub hostname : List ℕ
  pub port : ℕ

-- The constructor keeps the port as `(unsigned short) p`.
unfoldable pub new_address : List ℕ → ℕ → Address
new_address host p = record { hostname = host; port = u16 p }

abbrev pub no_address : Address
no_address = record { hostname = []; port = 0 }

unfoldable pub is_empty : Address → Bool
is_empty a = (a.port == 0) && bytes_same a.hostname []

-- `operator<`, and the equality of the ordered containers, where neither is less.
unfoldable pub address_less : Address → Address → Bool
address_less a b =
    if bytes_same a.hostname b.hostname then ltb a.port b.port else bytes_less a.hostname b.hostname

unfoldable pub address_same : Address → Address → Bool
address_same a b = bytes_same a.hostname b.hostname && (a.port == b.port)

pub address_same_iff : (a b : Address) → (address_same a b ≡ true) ↔ (a ≡ b)
unfolding address_same
address_same_iff a b = ground (arith, bytes_same_iff a.hostname b.hostname, ==_iff a.port b.port)

instance abbrev pub address_key : Key Address
address_key = record { same = address_same; same_iff = address_same_iff; less = address_less }
