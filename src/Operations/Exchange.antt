-- ===== src/Operations/Exchange.antt =====
-- What an operation puts on a transport and makes of what it takes from it: HotRodOperation,
-- AbstractKeyOperation and AbstractKeyValueOperation of impl/operations, over Codec20.
use cpp_client.Prelude.{ℕ, Bool, true, List, [], ◌++◌, Option, none, ◌==◌, if◌then◌else◌}
use cpp_client.Address.{Address}
use cpp_client.Exceptions.{Exception, Outcome, ok, throws, fault, transport, invalid_response}
use cpp_client.Wire.Stream.{Read, Reader, got, ended, undefined, ◌>>=◌, return}
use cpp_client.Wire.Write.{write_array}
use cpp_client.Protocol.OpCodes.{is_success, is_not_executed}
use cpp_client.Protocol.Topology.{TopologyUpdate}
use cpp_client.Protocol.Header.{
  HeaderParams, set_op_code, write_header, Response, accepted, rejected, broken, read_header,
}
use cpp_client.Protocol.Params.{write_expiration_params, return_possible_prev_value}

-- The cache, the flags and the known topology of an operation, the version of its codec, and the
-- address of the transport.
pub record Settings : Type 0 where
  pub protocol_version : ℕ
  pub cache_name : List ℕ
  pub flags : ℕ
  pub topology_id : ℕ
  pub address : Address

-- An answer, with the topology that came with it and the bytes after it; or an exception, with that
-- topology and whether the transport stays valid.
pub data Reply (A : Type 0) : Type 0 where
  answered : A → Option TopologyUpdate → List ℕ → Reply A
  refused : Exception → Option TopologyUpdate → Bool → Reply A
  faulted : Reply A

-- What is read after the header of a response, by its status.
abbrev pub Body : Type 0 → Type 0
Body A = ℕ → Reader (Outcome A)

pub record Exchange (A : Type 0) : Type 0 where
  pub sent : List ℕ
  pub message_id : ℕ
  pub reply : Reply A

-- The parameters before writeHeader sets the code.
abbrev pub header_params : Settings → HeaderParams
header_params s = record {
  op_code = 0;
  op_resp_code = 0;
  cache_name = s.cache_name;
  flags = s.flags;
  client_intel = 0x03;
  topology_id = s.topology_id;
  message_id = 0;
  topology_age = 0;
}

unfoldable pub read_body :
    {A : Type 0} → Address → Option TopologyUpdate → Read (Outcome A) → Reply A
read_body a topology (got (ok x) rest) = answered x topology rest
read_body a topology (got (throws e) rest) = refused e topology true
read_body a topology (got fault rest) = faulted
read_body a topology ended = refused (transport a.hostname a.port) topology true
read_body a topology undefined = faulted

unfoldable pub read_reply : {A : Type 0} → Address → Body A → Response → Reply A
unfolding read_body
read_reply a body (accepted status topology rest) = read_body a topology (body status rest)
read_reply a body (rejected e topology valid) = refused e topology valid
read_reply a body broken = faulted

unfoldable pub send :
    {A : Type 0}
    → Settings
    → Outcome (List ℕ)
    → Body A
    → List ℕ
    → List ℕ × HeaderParams × ℕ
    → Exchange A
unfolding read_reply read_header
send s (ok request) body input (header, p, id) = record {
  sent = header ++ request;
  message_id = id;
  reply = read_reply s.address body (read_header s.address p input);
}
send s (throws e) body input (header, p, id) = record {
  sent = header;
  message_id = id;
  reply = refused e none true;
}
send s fault body input (header, p, id) = record { sent = header; message_id = id; reply = faulted }

unfoldable pub begin_request :
    {A : Type 0}
    → Settings
    → Outcome HeaderParams
    → Outcome (List ℕ)
    → Body A
    → ℕ
    → List ℕ
    → Exchange A
unfolding write_header send
begin_request s (ok p) request body id input =
    send s request body input (write_header s.protocol_version id p)
begin_request s (throws e) request body id input = record {
  sent = [];
  message_id = id;
  reply = refused e none true;
}
begin_request s fault request body id input = record { sent = []; message_id = id; reply = faulted }

-- writeHeader, the request, and readHeaderAndValidate with what follows it.
unfoldable pub exchange :
    {A : Type 0} → Settings → ℕ → Outcome (List ℕ) → Body A → ℕ → List ℕ → Exchange A
unfolding set_op_code begin_request
exchange s code = begin_request s (set_op_code code (header_params s))

unfoldable pub send_key_operation :
    {A : Type 0} → Settings → ℕ → List ℕ → Body A → ℕ → List ℕ → Exchange A
unfolding exchange
send_key_operation s code key = exchange s code (ok (write_array key))

-- The expiration between two parts of a request.
unfoldable pub with_expiration : List ℕ → Outcome (List ℕ) → List ℕ → Outcome (List ℕ)
with_expiration before (ok bytes) later = ok (before ++ (bytes ++ later))
with_expiration before (throws e) later = throws e
with_expiration before fault later = fault

unfoldable pub send_put_operation :
    {A : Type 0} → Settings → ℕ → List ℕ → List ℕ → ℕ → ℕ → Body A → ℕ → List ℕ → Exchange A
unfolding exchange with_expiration write_expiration_params
send_put_operation s code key value lifespan max_idle = exchange s code (
    with_expiration (write_array key) (write_expiration_params lifespan max_idle)
      (write_array value))

-- An array that no exception can follow.
abbrev pub answering : {A : Type 0} → Reader A → Reader (Outcome A)
answering m = m >>= λ x. return (ok x)

abbrev pub no_answer : {A : Type 0} → A → Reader (Outcome A)
no_answer x = return (ok x)

unfoldable pub previous_value : Body (List ℕ)
unfolding return_possible_prev_value
previous_value status = answering (return_possible_prev_value status)

pub data RspCode : Type 0 where
  success : RspCode
  no_such_key : RspCode
  modified_key : RspCode

-- VersionedOperationResponse
abbrev pub Versioned : Type 0
Versioned = List ℕ × RspCode

unfoldable pub rsp_code : ℕ → Outcome RspCode
rsp_code status =
    if is_success status
    then ok success
    else if is_not_executed status
    then ok modified_key
    else if status == 0x02
    then ok no_such_key
    else throws invalid_response

unfoldable pub versioned_of : Outcome RspCode → Body Versioned
unfolding return_possible_prev_value
versioned_of (ok code) status = return_possible_prev_value status >>= λ v. return (ok (v, code))
versioned_of (throws e) status = return (throws e)
versioned_of fault status = return fault

unfoldable pub return_versioned_operation_response : Body Versioned
unfolding rsp_code versioned_of
return_versioned_operation_response status = versioned_of (rsp_code status) status
