-- ===== src/Pool/State.antt =====
-- The state of ConnectionPool (impl/transport/tcp/ConnectionPool.h) and the sections of
-- ConnectionPool.cpp that its operations share. A transport is a pointer, here a number. The maps hold
-- pointers to queues, null as `none`. activateObject and passivateObject are empty, and so are not here.
use cpp_client.Prelude.{
  ℕ, ◌+◌, ◌-◌, ◌^◌, Bool, true, false, List, [], ◌∷◌, ◌++◌, length, Option, none, some, ◌==◌,
  if◌then◌else◌,
}
use cpp_client.Prelude.Words.{u32}
use cpp_client.Prelude.Maps.{lookup, insert}
use cpp_client.Address.{Address, address_key}
use cpp_client.Exceptions.{Outcome, ok, throws, fault, Run}

pub data ExhaustedAction : Type 0 where
  exception : ExhaustedAction
  wait : ExhaustedAction
  create_new : ExhaustedAction

-- The fields that the pool reads: `none` is a negative maxActive, 0 a maxTotal or a minIdle that is
-- not positive.
pub record ConnectionPoolConfiguration : Type 0 where
  pub exhausted_action : ExhaustedAction
  pub max_active : Option ℕ
  pub max_total : ℕ
  pub min_idle : ℕ
  pub test_on_borrow : Bool
  pub test_on_return : Bool

pub data PingResult : Type 0 where
  success : PingResult
  success_with_compat : PingResult
  cache_does_not_exist : PingResult
  fail : PingResult

-- AbstractObjectFactory: `World` is the state of the connections and the servers.
pub record ObjectFactory : Type 1 where
  pub World : Type 0
  pub make_object : Address → World → Outcome ℕ × World
  pub destroy_object : Address → ℕ → World → World
  pub ping : ℕ → World → Outcome PingResult × World

abbrev pub Queues : Type 0
Queues = List (Address × Option (List ℕ))

unfoldable pub queue_size : Address → Queues → Outcome ℕ
queue_size k m = elim (lookup k m) [ some (some q) ↦ ok (length q) | _ ↦ fault ]

-- std::list::remove
unfoldable pub remove : ℕ → List ℕ → List ℕ
remove t [] = []
remove t (x ∷ q) = let rest = remove t q in if x == t then rest else x ∷ rest

-- A counter that goes down by one.
abbrev pub decrement : ℕ → ℕ
decrement n = u32 (n + (2 ^ 32 - 1))

module _ (f : ObjectFactory) where
  pub record Pool : Type 0 where
    pub idle : Queues
    pub busy : Queues
    pub total_idle : ℕ
    pub total_active : ℕ
    pub allocation_queue : List Address
    pub closed : Bool
    pub world : f.World

  -- The constructor.
  abbrev pub new_pool : f.World → Pool
  new_pool w = record {
    idle = [];
    busy = [];
    total_idle = 0;
    total_active = 0;
    allocation_queue = [];
    closed = false;
    world = w;
  }

  unfoldable pub make_object : Address → Run Pool ℕ
  make_object k p = let (t, w) = f.make_object k p.world in (t, record p { world = w })

  unfoldable pub destroy_object : Address → ℕ → Run Pool (Unit {0})
  destroy_object k t p = (ok tt, record p { world = f.destroy_object k t p.world })

  unfoldable pub is_ping_success : PingResult → Bool
  is_ping_success success = true
  is_ping_success _ = false

  unfoldable pub pinged : Outcome PingResult × f.World → Run Pool Bool
  unfolding is_ping_success
  pinged (ok r, w) p = (ok (is_ping_success r), record p { world = w })
  pinged (throws e, w) p = (throws e, record p { world = w })
  pinged (fault, w) p = (fault, record p { world = w })

  unfoldable pub validate_object : ℕ → Run Pool Bool
  unfolding pinged
  validate_object t p = pinged (f.ping t p.world) p

  -- `idle[key]->push(t)` and `totalIdle++`; a key that is missing gets a null pointer.
  unfoldable pub push_idle : Address → ℕ → Run Pool (Unit {0})
  push_idle k t p = elim (lookup k p.idle) [
    | some (some q) ↦ (
      ok tt,
      record p {
        idle = insert k (some (q ++ (t ∷ []))) p.idle;
        total_idle = u32 (p.total_idle + 1);
      },
    )
    | _ ↦ (fault, p)
  ]

  -- `idleQ->poll(t)` or `idleQ->pop()`, and `totalIdle--` where there was a transport.
  unfoldable pub poll_idle : Address → Run Pool (Option ℕ)
  poll_idle k p = elim (lookup k p.idle) [
    | some (some (t ∷ q)) ↦ (
      ok (some t),
      record p { idle = insert k (some q) p.idle; total_idle = decrement p.total_idle },
    )
    | some (some []) ↦ (ok none, p)
    | _ ↦ (fault, p)
  ]

  -- `busyQ->push(t)` and `totalActive++`.
  unfoldable pub push_busy : Address → ℕ → Run Pool (Unit {0})
  push_busy k t p = elim (lookup k p.busy) [
    | some (some q) ↦ (
      ok tt,
      record p {
        busy = insert k (some (q ++ (t ∷ []))) p.busy;
        total_active = u32 (p.total_active + 1);
      },
    )
    | _ ↦ (fault, p)
  ]

  -- `busy[key]->remove(t)` and `totalActive--`.
  unfoldable pub remove_busy : Address → ℕ → Run Pool (Unit {0})
  unfolding remove
  remove_busy k t p = elim (lookup k p.busy) [
    | some (some q) ↦ (
      ok tt,
      record p {
        busy = insert k (some (remove t q)) p.busy;
        total_active = decrement p.total_active;
      },
    )
    | _ ↦ (fault, p)
  ]
