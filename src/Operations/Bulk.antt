-- ===== src/Operations/Bulk.antt =====
-- The operations on a whole cache or on many keys: ClearOperation, SizeOperation, StatsOperation and
-- GetAllOperation of impl/operations, and the end of a transaction (TransactionOperations.cpp).
use cpp_client.Prelude.{
  ℕ, zero, suc, ◌*◌, ◌^◌, bit_xor, List, [], ◌++◌, length, ltb, ◌==◌, if◌then◌else◌,
}
use cpp_client.Prelude.Words.{u32, shr}
use cpp_client.Prelude.Maps.{insert, bytes_key}
use cpp_client.Exceptions.{ok}
use cpp_client.Wire.Stream.{Reader, ◌>>=◌, return}
use cpp_client.Wire.Read.{read_vint, read_array, read_4byte_int}
use cpp_client.Wire.Write.{write_vint, write_array}
use cpp_client.Transactions.Remote.{Xid}
use cpp_client.Protocol.Params.{write_each}
use cpp_client.Operations.Exchange.{Settings, Body, Exchange, exchange, answering, no_answer}

unfoldable pub clear_operation : Settings → ℕ → List ℕ → Exchange (List ℕ)
unfolding exchange
clear_operation s = exchange s 0x13 (ok []) λ status. no_answer []

unfoldable pub size_operation : Settings → ℕ → List ℕ → Exchange ℕ
unfolding exchange
size_operation s = exchange s 0x29 (ok []) λ status. answering read_vint

-- Pairs into a map, as many as were announced.
unfoldable pub read_pairs : ℕ → List (List ℕ × List ℕ) → Reader (List (List ℕ × List ℕ))
read_pairs zero m = return m
read_pairs (suc n) m = do k ← read_array; v ← read_array; read_pairs n (insert k v m)

-- The number is an int: no entry is read where it is negative.
unfoldable pub read_stats : Reader (List (List ℕ × List ℕ))
unfolding read_pairs
read_stats = do n ← read_vint; read_pairs (if ltb n (2 ^ 31) then n else 0) []

unfoldable pub stats_operation : Settings → ℕ → List ℕ → Exchange (List (List ℕ × List ℕ))
unfolding exchange read_stats
stats_operation s = exchange s 0x15 (ok []) λ status. answering read_stats

unfoldable pub read_entries : Reader (List (List ℕ × List ℕ))
unfolding read_pairs
read_entries = do n ← read_vint; read_pairs n []

-- Only the status 0 is followed by entries.
unfoldable pub get_all_answer : Body (List (List ℕ × List ℕ))
unfolding read_entries
get_all_answer status = if status == 0 then answering read_entries else no_answer []

unfoldable pub get_all_operation :
    Settings → List (List ℕ) → ℕ → List ℕ → Exchange (List (List ℕ × List ℕ))
unfolding exchange write_each get_all_answer
get_all_operation s keys =
    exchange s 0x2F (ok (write_vint (u32 (length keys)) ++ write_each keys)) get_all_answer

-- writeXID of a format id, an unsigned int.
unfoldable pub write_xid : ℕ → Xid → List ℕ
write_xid format xid =
    write_vint (bit_xor (u32 (format * 2)) (shr format 31))
    ++ (write_array xid.global_id ++ write_array xid.branch_id)

unfoldable pub commit_operation : Settings → ℕ → Xid → ℕ → List ℕ → Exchange ℕ
unfolding exchange write_xid
commit_operation s format xid =
    exchange s 0x3D (ok (write_xid format xid)) λ status. answering read_4byte_int

-- The code that the server answers is read and not looked at.
unfoldable pub rollback_operation : Settings → ℕ → Xid → ℕ → List ℕ → Exchange ℕ
unfolding exchange write_xid
rollback_operation s format xid =
    exchange s 0x3F (ok (write_xid format xid)) λ status. read_4byte_int >>= λ code. return (ok 0)
