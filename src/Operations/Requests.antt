-- ===== src/Operations/Requests.antt =====
-- The requests of impl/operations against the layout of the protocol: a header and fields, read in
-- their order.
use cpp_client.Prelude.{ℕ, ◌+◌, ◌*◌, List, [], ◌∷◌, map, length, bit_xor}
use cpp_client.Prelude.Words.{u32, u64, shr}
use cpp_client.Transactions.Remote.{Xid}
use cpp_client.Operations.Exchange.{Settings}
use cpp_client.Operations.Keys.{
  get_operation, get_with_version_operation, get_with_metadata_operation, contains_key_operation,
  remove_operation, remove_if_unmodified_operation,
}
use cpp_client.Operations.Values.{
  put_operation, put_if_absent_operation, replace_operation, replace_if_unmodified_operation,
}
use cpp_client.Operations.Bulk.{
  clear_operation, size_operation, stats_operation, get_all_operation, commit_operation,
  rollback_operation,
}
use cpp_client.Operations.Layout.{Field, octet, number, wide, long, array}

-- A request of the application.
pub data Request : Type 0 where
  gets : List ℕ → Request
  gets_with_version : List ℕ → Request
  gets_with_metadata : List ℕ → Request
  asks_for : List ℕ → Request
  removes : List ℕ → Request
  removes_if_unmodified : List ℕ → ℕ → Request
  puts : List ℕ → List ℕ → ℕ → ℕ → Request
  puts_if_absent : List ℕ → List ℕ → ℕ → ℕ → Request
  replaces : List ℕ → List ℕ → ℕ → ℕ → Request
  replaces_if_unmodified : List ℕ → List ℕ → ℕ → ℕ → ℕ → Request
  clears : Request
  counts : Request
  asks_stats : Request
  gets_all : List (List ℕ) → Request
  commits : ℕ → Xid → Request
  rolls_back : ℕ → Xid → Request

-- What the operation puts on the transport, after the messages that went before it.
abbrev pub sent : Settings → ℕ → Request → List ℕ
sent s id (gets k) = (get_operation s k id []).sent
sent s id (gets_with_version k) = (get_with_version_operation s k id []).sent
sent s id (gets_with_metadata k) = (get_with_metadata_operation s k id []).sent
sent s id (asks_for k) = (contains_key_operation s k id []).sent
sent s id (removes k) = (remove_operation s k id []).sent
sent s id (removes_if_unmodified k v) = (remove_if_unmodified_operation s k v id []).sent
sent s id (puts k p l i) = (put_operation s k p l i id []).sent
sent s id (puts_if_absent k p l i) = (put_if_absent_operation s k p l i id []).sent
sent s id (replaces k p l i) = (replace_operation s k p l i id []).sent
sent s id (replaces_if_unmodified k p l i v) =
    (replace_if_unmodified_operation s k p l i v id []).sent
sent s id clears = (clear_operation s id []).sent
sent s id counts = (size_operation s id []).sent
sent s id asks_stats = (stats_operation s id []).sent
sent s id (gets_all ks) = (get_all_operation s ks id []).sent
sent s id (commits format xid) = (commit_operation s format xid id []).sent
sent s id (rolls_back format xid) = (rollback_operation s format xid id []).sent

abbrev pub code_of : Request → ℕ
code_of (puts k p l i) = 0x01
code_of (gets k) = 0x03
code_of (puts_if_absent k p l i) = 0x05
code_of (replaces k p l i) = 0x07
code_of (replaces_if_unmodified k p l i v) = 0x09
code_of (removes k) = 0x0B
code_of (removes_if_unmodified k v) = 0x0D
code_of (asks_for k) = 0x0F
code_of (gets_with_version k) = 0x11
code_of clears = 0x13
code_of asks_stats = 0x15
code_of (gets_with_metadata k) = 0x1B
code_of counts = 0x29
code_of (gets_all ks) = 0x2F
code_of (commits format xid) = 0x3D
code_of (rolls_back format xid) = 0x3F

abbrev pub xid_fields : ℕ → Xid → List Field
xid_fields format xid =
    number (bit_xor (u32 (format * 2)) (shr format 31))
    ∷ array xid.global_id
    ∷ array xid.branch_id
    ∷ []

abbrev pub body_fields : Request → List Field
body_fields (gets k) = array k ∷ []
body_fields (gets_with_version k) = array k ∷ []
body_fields (gets_with_metadata k) = array k ∷ []
body_fields (asks_for k) = array k ∷ []
body_fields (removes k) = array k ∷ []
body_fields (removes_if_unmodified k v) = array k ∷ long v ∷ []
body_fields (puts k p l i) = array k ∷ number l ∷ number i ∷ array p ∷ []
body_fields (puts_if_absent k p l i) = array k ∷ number l ∷ number i ∷ array p ∷ []
body_fields (replaces k p l i) = array k ∷ number l ∷ number i ∷ array p ∷ []
body_fields (replaces_if_unmodified k p l i v) =
    array k ∷ number l ∷ number i ∷ long v ∷ array p ∷ []
body_fields clears = []
body_fields counts = []
body_fields asks_stats = []
body_fields (gets_all ks) = number (u32 (length ks)) ∷ map array ks
body_fields (commits format xid) = xid_fields format xid
body_fields (rolls_back format xid) = xid_fields format xid

-- The header of the protocol: the magic number, the message id, the version, the code, the cache,
-- the flags, the intelligence of the client and the topology that it knows.
abbrev pub fields : Settings → ℕ → Request → List Field
fields s id q =
    octet 0xA0
    ∷ wide (u64 (id + 1))
    ∷ octet s.protocol_version
    ∷ octet (code_of q)
    ∷ array s.cache_name
    ∷ number s.flags
    ∷ octet 0x03
    ∷ number s.topology_id
    ∷ body_fields q
