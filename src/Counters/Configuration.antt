-- ===== src/Counters/Configuration.antt =====
-- CounterConfiguration.h, with writeConfiguration and readConfiguration of CounterOperations.cpp. A
-- long is the pattern of its 64 bits, the concurrency level that of 32.
use cpp_client.Prelude.{ℕ, bit_and, bit_or, List, [], ◌∷◌, ◌++◌, ◌==◌, if◌then◌else◌}
use cpp_client.Exceptions.{Outcome, ok, throws, fault, client}
use cpp_client.Wire.Stream.{Reader, ◌>>=◌, return}
use cpp_client.Wire.Read.{read_byte, read_vint, read_long}
use cpp_client.Wire.Write.{write_vint, write_long}

pub data CounterType : Type 0 where
  unbounded_strong : CounterType
  bounded_strong : CounterType
  weak : CounterType

pub data Storage : Type 0 where
  volatile : Storage
  persistent : Storage

pub record CounterConfiguration : Type 0 where
  pub initial_value : ℕ
  pub lower_bound : ℕ
  pub upper_bound : ℕ
  pub concurrency_level : ℕ
  pub type : CounterType
  pub storage : Storage

abbrev pub type_flags : CounterType → ℕ
type_flags weak = bit_or 0 0x01
type_flags bounded_strong = bit_or 0 0x02
type_flags unbounded_strong = 0

abbrev pub storage_flags : Storage → ℕ → ℕ
storage_flags persistent flags = bit_or flags 0x04
storage_flags volatile flags = flags

abbrev pub level_bytes : CounterType → ℕ → List ℕ
level_bytes weak level = write_vint level
level_bytes bounded_strong level = []
level_bytes unbounded_strong level = []

abbrev pub bounds_bytes : CounterType → ℕ → ℕ → List ℕ
bounds_bytes bounded_strong lower upper = write_long lower ++ write_long upper
bounds_bytes unbounded_strong lower upper = []
bounds_bytes weak lower upper = []

unfoldable pub write_configuration : CounterConfiguration → List ℕ
write_configuration c =
    storage_flags c.storage (type_flags c.type)
    ∷ (level_bytes c.type c.concurrency_level
        ++ (bounds_bytes c.type c.lower_bound c.upper_bound ++ write_long c.initial_value))

unfoldable pub type_of : ℕ → Outcome CounterType
type_of flags =
    if bit_and flags 0x03 == 0x00
    then ok unbounded_strong
    else if bit_and flags 0x03 == 0x01
    then ok weak
    else if bit_and flags 0x03 == 0x02
    then ok bounded_strong
    else throws client

unfoldable pub storage_of : ℕ → Storage
storage_of flags = if bit_and flags 0x04 == 0 then volatile else persistent

unfoldable pub read_level : CounterType → Reader ℕ
read_level weak = read_vint
read_level bounded_strong = return 0
read_level unbounded_strong = return 0

-- The lower bound and the upper one.
unfoldable pub read_bounds : CounterType → Reader (ℕ × ℕ)
read_bounds bounded_strong = do lower ← read_long; upper ← read_long; return (lower, upper)
read_bounds unbounded_strong = return (0, 0)
read_bounds weak = return (0, 0)

unfoldable pub read_typed : Storage → Outcome CounterType → Reader (Outcome CounterConfiguration)
unfolding read_level read_bounds
read_typed st (ok t) = do
  level ← read_level t
  bounds ← read_bounds t
  initial ← read_long
  return (
      ok (record {
        initial_value = initial;
        lower_bound = bounds.0;
        upper_bound = bounds.1;
        concurrency_level = level;
        type = t;
        storage = st;
      }))
read_typed st (throws e) = return (throws e)
read_typed st fault = return fault

unfoldable pub read_configuration : Reader (Outcome CounterConfiguration)
unfolding type_of storage_of read_typed
read_configuration = do flags ← read_byte; read_typed (storage_of flags) (type_of flags)
