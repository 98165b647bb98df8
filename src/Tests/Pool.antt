-- ===== src/Tests/Pool.antt =====
-- The connection pool at concrete states: witnesses and runs.
use cpp_client.Prelude.Maps.{bytes_less, bytes_same, insert, lookup}
use cpp_client.Prelude.{ℕ, ◌+◌, ◌≡◌, refl, Bool, true, false, [], ◌∷◌, none, some}
use cpp_client.Address.{address_less, address_same, Address, address_key}
use cpp_client.Exceptions.{ok}
use cpp_client.Pool.State.{
  poll_idle, exception, ConnectionPoolConfiguration, ObjectFactory, Pool, PingResult, success,
  success_with_compat, new_pool,
}
use cpp_client.Pool.Borrow.{add_object, borrow_object}
use cpp_client.Pool.Reach.{Reach}
use cpp_client.Pool.Rounds.{Answered, borrow_object-two_rounds}
use cpp_client.Pool.Compat.{NeverValid, borrow_object-for_ever}

-- Transports are numbered in the order in which they are made; every ping has the same answer.
abbrev factory : PingResult → ObjectFactory
factory r = record {
  World = ℕ;
  make_object = λ k w. (ok w, w + 1);
  destroy_object = λ k t w. w;
  ping = λ t w. (ok r, w);
}

abbrev limits : Bool → ℕ → ConnectionPoolConfiguration
limits tested total = record {
  exhausted_action = exception;
  max_active = none;
  max_total = total;
  min_idle = 1;
  test_on_borrow = tested;
  test_on_return = false;
}

abbrev server_a : Address
server_a = record { hostname = 65 ∷ []; port = 1 }

abbrev server_b : Address
server_b = record { hostname = 66 ∷ []; port = 1 }

abbrev small : ConnectionPoolConfiguration
small = limits false 2

abbrev fine : ObjectFactory
fine = factory success

-- Two servers with one idle transport each, one of which is lent; then the second server drops out.
abbrev two_servers : Pool fine
two_servers =
    (add_object fine small server_b (add_object fine small server_a (new_pool fine 0)).1).1

abbrev one_lent : Pool fine
one_lent = record {
  idle = (server_a, some []) ∷ (server_b, some (1 ∷ [])) ∷ [];
  busy = (server_a, some (0 ∷ [])) ∷ (server_b, some []) ∷ [];
  total_idle = 1;
  total_active = 1;
  allocation_queue = [];
  closed = false;
  world = 2;
}

one_lent-borrowed : borrow_object fine small 2 server_a two_servers ≡ some (ok (some 0), one_lent)
unfolding borrow_object add_object lookup insert address_same bytes_same address_less bytes_less
one_lent-borrowed = refl

-- A thread takes the transport of the first server with the lock released, and goes on.
abbrev taken : Pool fine
taken = (poll_idle fine server_a two_servers).1

-- At the limit a second transport for the first server costs the second its idle one.
full_borrowed :
    borrow_object fine small 2 server_a one_lent
    ≡ some (
      ok (some 2),
      record one_lent {
        idle = (server_a, some []) ∷ (server_b, some []) ∷ [];
        busy = (server_a, some (0 ∷ 2 ∷ [])) ∷ (server_b, some []) ∷ [];
        total_idle = 0;
        total_active = 2;
        world = 3;
      },
    )
unfolding borrow_object address_same bytes_same lookup insert address_less bytes_less
full_borrowed = refl

borrow_object-two_rounds_example : Answered (borrow_object fine small 2 server_b two_servers)
borrow_object-two_rounds_example = borrow_object-two_rounds fine small refl 0 server_b two_servers

abbrev compatible : ObjectFactory
compatible = factory success_with_compat

abbrev tested_limits : ConnectionPoolConfiguration
tested_limits = limits true 0

compatible-NeverValid : NeverValid compatible tested_limits
compatible-NeverValid = record {
  tested = refl;
  unlimited = refl;
  no_total = refl;
  made = λ k w. (w, w + 1, refl);
  compat = λ t w. (w, refl);
}

abbrev compatible_pool : Pool compatible
compatible_pool = (add_object compatible tested_limits server_a (new_pool compatible 0)).1

borrow_object-for_ever_example :
    borrow_object compatible tested_limits 9 server_a compatible_pool ≡ none
unfolding add_object lookup insert address_same bytes_same
borrow_object-for_ever_example =
    borrow_object-for_ever compatible tested_limits compatible-NeverValid 9 server_a compatible_pool
      refl ((0 ∷ []), [], refl, refl)
