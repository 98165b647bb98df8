-- ===== src/Operations/Keys.antt =====
-- The operations that send a key: GetOperation, GetWithVersionOperation, GetWithMetadataOperation,
-- ContainsKeyOperation, RemoveOperation and RemoveIfUnmodifiedOperation of impl/operations.
use cpp_client.Prelude.{ℕ, Bool, List, [], ◌++◌, bit_and, ◌==◌, if◌then◌else◌}
use cpp_client.Exceptions.{ok}
use cpp_client.Wire.Stream.{Reader, ◌>>=◌, return}
use cpp_client.Wire.Read.{read_byte, read_long, read_vint, read_array}
use cpp_client.Wire.Write.{write_array, write_long}
use cpp_client.Protocol.OpCodes.{is_success}
use cpp_client.Transactions.Context.{MetadataValue, no_metadata}
use cpp_client.Operations.Exchange.{
  Settings, Body, Exchange, exchange, send_key_operation, answering, no_answer, previous_value,
  Versioned, return_versioned_operation_response,
}

unfoldable pub get_answer : Body (List ℕ)
get_answer status = if is_success status then answering read_array else no_answer []

unfoldable pub get_operation : Settings → List ℕ → ℕ → List ℕ → Exchange (List ℕ)
unfolding send_key_operation get_answer
get_operation s key = send_key_operation s 0x03 key get_answer

unfoldable pub read_versioned : Reader (ℕ × List ℕ)
read_versioned = do version ← read_long; value ← read_array; return (version, value)

-- The version, 0 where the key is missing, and the value.
unfoldable pub get_with_version_answer : Body (ℕ × List ℕ)
unfolding read_versioned
get_with_version_answer status =
    if is_success status then answering read_versioned else no_answer (0, [])

unfoldable pub get_with_version_operation : Settings → List ℕ → ℕ → List ℕ → Exchange (ℕ × List ℕ)
unfolding send_key_operation get_with_version_answer
get_with_version_operation s key = send_key_operation s 0x11 key get_with_version_answer

-- Two times, each with its limit, unless the flag says that there is no limit.
unfoldable pub read_limit : ℕ → ℕ → ℕ × ℕ → Reader (ℕ × ℕ)
read_limit flag infinite none_given =
    if bit_and flag infinite == infinite
    then return none_given
    else do at ← read_long; limit ← read_vint; return (at, limit)

unfoldable pub read_metadata : Reader (MetadataValue × List ℕ)
unfolding read_limit
read_metadata = do
  flag ← read_byte
  created ← read_limit flag 0x01 (no_metadata.created, no_metadata.lifespan)
  used ← read_limit flag 0x02 (no_metadata.last_used, no_metadata.max_idle)
  version ← read_long
  value ← read_array
  return (
    record {
      version = version;
      created = created.0;
      lifespan = created.1;
      last_used = used.0;
      max_idle = used.1;
    },
    value,
  )

unfoldable pub get_with_metadata_answer : Body (MetadataValue × List ℕ)
unfolding read_metadata
get_with_metadata_answer status =
    if is_success status then answering read_metadata else no_answer (no_metadata, [])

unfoldable pub get_with_metadata_operation :
    Settings → List ℕ → ℕ → List ℕ → Exchange (MetadataValue × List ℕ)
unfolding send_key_operation get_with_metadata_answer
get_with_metadata_operation s key = send_key_operation s 0x1B key get_with_metadata_answer

unfoldable pub contains_key_operation : Settings → List ℕ → ℕ → List ℕ → Exchange Bool
unfolding send_key_operation
contains_key_operation s key = send_key_operation s 0x0F key λ status. no_answer (is_success status)

unfoldable pub remove_operation : Settings → List ℕ → ℕ → List ℕ → Exchange (List ℕ)
unfolding send_key_operation previous_value
remove_operation s key = send_key_operation s 0x0B key previous_value

unfoldable pub remove_if_unmodified_operation :
    Settings → List ℕ → ℕ → ℕ → List ℕ → Exchange Versioned
unfolding exchange return_versioned_operation_response
remove_if_unmodified_operation s key version =
    exchange s 0x0D (ok (write_array key ++ write_long version)) return_versioned_operation_response
