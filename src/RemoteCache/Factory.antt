-- ===== src/RemoteCache/Factory.antt =====
-- The flags of impl/operations/OperationsFactory.cpp and include/infinispan/hotrod/Flag.h.
use cpp_client.Prelude.{ℕ, Bool, bit_or, if◌then◌else◌}

abbrev pub force_return_value_flag : ℕ
force_return_value_flag = 0x01

abbrev pub default_lifespan : ℕ
default_lifespan = 0x02

abbrev pub default_max_idle : ℕ
default_max_idle = 0x04

pub record OperationsFactory : Type 0 where
  pub force_return_value : Bool
  pub flags : ℕ

-- The flags of the next operation, which are used up by it.
unfoldable pub get_flags : OperationsFactory → ℕ × OperationsFactory
get_flags f = (
  (if f.force_return_value then bit_or f.flags force_return_value_flag else f.flags),
  record f { flags = 0 },
)

unfoldable pub add_flags : ℕ → OperationsFactory → OperationsFactory
add_flags g f = record f { flags = bit_or f.flags g }

unfoldable pub set_flags : ℕ → OperationsFactory → OperationsFactory
set_flags g f = record f { flags = g }
