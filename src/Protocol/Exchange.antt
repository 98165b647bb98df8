-- ===== src/Protocol/Exchange.antt =====
-- A request's header and the responses that are accepted for it.
use cpp_client.Prelude.{
  sym, ◌≢◌, subst, suc, ◌&&◌, ◌^◌, not, ◌||◌, ℕ, ◌≡◌, ◌<◌, refl, ◌∙◌, inl, inr, Bool, true, false,
  List, [], ◌∷◌, ◌++◌, length, Option, none, some, ◌==◌, arith, Bool-cases,
}
use cpp_client.Prelude.Words.{IsU64, IsU32}
use cpp_client.Prelude.Maps.{lookup, nat_key}
use cpp_client.Address.{Address}
use cpp_client.Exceptions.{throws, fault, Exception, Outcome, invalid_response, ok}
use cpp_client.Wire.Stream.{Read, ended, undefined, got, >>=-got}
use cpp_client.Wire.Read.{read_byte}
use cpp_client.Wire.Write.{write_vlong}
use cpp_client.Wire.VarInt.{read_vlong-write_vlong}
use cpp_client.Protocol.OpCodes.{
  respond, responses, to_op_resp_code, error_response, is_event, is_counter_event,
}
use cpp_client.Protocol.Topology.{
  TopologyUpdate, read_new_topology_if_present, read_new_topology_and_hash, read_if_changed,
}
use cpp_client.Protocol.Layout.{
  topology_bytes, Sendable, Rows, rows_at, read_new_topology_and_hash-topology_bytes,
}
use cpp_client.Protocol.Header.{
  check_for_errors, error_of, rejected, HeaderParams, accepted, reading, check_op_code,
  read_after_id, read_after_magic, read_header,
}

-- The codes that no response to a request has: of an error and of the events.
abbrev pub is_reserved : ℕ → Bool
is_reserved r = (r == error_response) || (is_event r || is_counter_event r)

abbrev unreserved : List (ℕ × ℕ) → Bool
unreserved [] = true
unreserved ((code, r) ∷ rest) = not (is_reserved r) && unreserved rest

all_unreserved : unreserved responses ≡ true
unfolding is_event is_counter_event
all_unreserved = refl

lookup-unreserved :
    (code r : ℕ) (m : List (ℕ × ℕ))
    → unreserved m ≡ true
    → lookup code m ≡ some r
    → is_reserved r ≡ false
unfolding lookup
lookup-unreserved code r [] all e = ground arith
lookup-unreserved code r ((k, v) ∷ rest) all e = elim (Bool-cases (k == code)) [
  | inl same ↦
      let found : v ≡ r = ground arith in subst (λ x. is_reserved x ≡ false) found (ground arith)
  | inr other ↦ lookup-unreserved code r rest (ground arith) (ground arith)
]

respond-ok : (r : ℕ) (o : Option ℕ) → respond o ≡ ok r → o ≡ some r
unfolding respond
respond-ok r none e = cc
respond-ok r (some v) e = cc

-- The response code that belongs to a request is never that of an error or of an event.
to_op_resp_code-is_reserved : (code r : ℕ) → to_op_resp_code code ≡ ok r → is_reserved r ≡ false
unfolding to_op_resp_code
to_op_resp_code-is_reserved code r e =
    lookup-unreserved code r responses all_unreserved (respond-ok r _ e)

-- A response to the request with these parameters, which carries no topology.
abbrev pub plain_response : HeaderParams → ℕ → List ℕ → List ℕ
plain_response p status rest =
    0xA1 ∷ (write_vlong p.message_id ++ (p.op_resp_code ∷ status ∷ 0 ∷ rest))

-- A response to the request with these parameters, which carries a topology.
abbrev pub topology_response :
    HeaderParams → ℕ → ℕ → List Address → ℕ → List (List ℕ) → List ℕ → List ℕ
topology_response p status id as' version rows rest =
    0xA1
    ∷ (write_vlong p.message_id
        ++ (p.op_resp_code ∷ status ∷ 1 ∷ topology_bytes id as' version rows rest))

accepted_code :
    (a : Address) (p : HeaderParams) (status : ℕ) (t : Option TopologyUpdate) (rest : List ℕ)
    → check_op_code a p p.op_resp_code status t rest ≡ accepted status t rest
unfolding check_op_code
accepted_code a p status t rest = ground arith

after_magic :
    (a : Address) (p : HeaderParams) (input : List ℕ)
    → IsU64 p.message_id
    → read_header a p (0xA1 ∷ (write_vlong p.message_id ++ input)) ≡ read_after_id a p input
unfolding read_header read_after_magic read_byte reading
after_magic a p input h = rw (read_vlong-write_vlong p.message_id input h) (ground arith)

after_topology :
    (a : Address) (p : HeaderParams) (status : ℕ) (input rest : List ℕ) (t : Option TopologyUpdate)
    → read_new_topology_if_present input ≡ got t rest
    → read_after_id a p (p.op_resp_code ∷ status ∷ input) ≡ accepted status t rest
unfolding read_after_id reading read_byte
after_topology a p status input rest t e =
    rw (e, read_after_id, reading) (accepted_code a p status t rest)

no_topology : (rest : List ℕ) → read_new_topology_if_present (0 ∷ rest) ≡ got none rest
unfolding read_new_topology_if_present read_if_changed read_byte
no_topology rest = refl

some_topology :
    (input rest : List ℕ) (u : TopologyUpdate)
    → read_new_topology_and_hash input ≡ got u rest
    → read_new_topology_if_present (1 ∷ input) ≡ got (some u) rest
unfolding read_new_topology_if_present read_if_changed read_byte
some_topology input rest u e = >>=-got read_new_topology_and_hash _ input e

-- For a 64-bit message id, the header of a response to the request is accepted with its status and,
-- where it carries one, its topology, and what follows it is left.
pub read_header-responses :
    (a : Address) (p : HeaderParams) (status id version : ℕ) (as' : List Address)
    (rows : List (List ℕ)) (rest : List ℕ)
    → IsU64 p.message_id
    → IsU32 id
    → length as' < 2 ^ 32
    → Sendable as'
    → length rows < 2 ^ 32
    → Rows (length as') rows
    → (read_header a p (plain_response p status rest) ≡ accepted status none rest)
      × (read_header a p (topology_response p status id as' (suc version) rows rest)
          ≡ accepted status
              (some (record {
                new_topology_id = id;
                addresses = as';
                hash_function_version = suc version;
                num_segments = length rows;
                segment_owners = rows_at as' rows;
              }))
              rest)
read_header-responses a p status id version as' rows rest h hid hlen send hrows range = (
  after_magic a p _ h ∙ after_topology a p status _ rest none (no_topology rest),
  after_magic a p _ h
      ∙ after_topology a p status _ rest _ (
          some_topology _ rest _ (
            read_new_topology_and_hash-topology_bytes id as' version rows rest hid hlen send hrows
              range)),
)

error_not_accepted :
    (a : Address) (status : ℕ) (t u : Option TopologyUpdate) (s : ℕ) (rest : List ℕ)
    (x : Outcome Exception)
    → error_of a status t x ≢ accepted s u rest
unfolding error_of
error_not_accepted a status t u s rest (ok x) e = cc
error_not_accepted a status t u s rest (throws x) e = cc
error_not_accepted a status t u s rest fault e = cc

other_code :
    (a : Address) (p : HeaderParams) (received status : ℕ) (t u : Option TopologyUpdate) (s : ℕ)
    (input rest : List ℕ)
    → (received == p.op_resp_code) ≡ false
    → check_op_code a p received status t input ≢ accepted s u rest
unfolding check_op_code
other_code a p received status t u s input rest other e =
    elim (Bool-cases (received == error_response)) [
      | inr unknown ↦ ground (arith, e)
      | inl error ↦
          error_not_accepted a status t u s rest (check_for_errors a status input)
            (ground (arith, e))
    ]

checked :
    (a : Address) (p : HeaderParams) (received s status : ℕ) (u : Option TopologyUpdate)
    (rest : List ℕ) (x : Read (Option TopologyUpdate))
    → (received == p.op_resp_code) ≡ false
    → reading a x (λ t i. check_op_code a p received status t i) ≢ accepted s u rest
unfolding reading
checked a p received s status u rest (got t i) other e =
    other_code a p received status t u s i rest other e
checked a p received s status u rest ended other e = cc
checked a p received s status u rest undefined other e = cc

not_accepted_after_id :
    (a : Address) (p : HeaderParams) (received s : ℕ) (u : Option TopologyUpdate)
    (input rest : List ℕ)
    → (received == p.op_resp_code) ≡ false
    → read_after_id a p (received ∷ input) ≢ accepted s u rest
unfolding read_after_id read_byte reading
not_accepted_after_id a p received s u [] rest other e = cc
not_accepted_after_id a p received s u (status ∷ input) rest other e =
    checked a p received s status u rest (read_new_topology_if_present input) other e

-- A response with the id of the request but another code is never accepted, whatever follows.
read_header-other_code :
    (a : Address) (p : HeaderParams) (received s : ℕ) (u : Option TopologyUpdate)
    (input rest : List ℕ)
    → IsU64 p.message_id
    → (received == p.op_resp_code) ≡ false
    → read_header a p (0xA1 ∷ (write_vlong p.message_id ++ (received ∷ input))) ≢ accepted s u rest
read_header-other_code a p received s u input rest h other e =
    not_accepted_after_id a p received s u input rest other (sym (after_magic a p _ h) ∙ e)

-- A response with an id that is neither 0 nor that of the request is answered by an
-- InvalidResponseException.
read_header-other_id :
    (a : Address) (p : HeaderParams) (id : ℕ) (input : List ℕ)
    → IsU64 id
    → (id == p.message_id) ≡ false
    → (id == 0) ≡ false
    → read_header a p (0xA1 ∷ (write_vlong id ++ input)) ≡ rejected invalid_response none true
unfolding read_header read_after_magic read_byte reading
read_header-other_id a p id input h other positive =
    rw (read_vlong-write_vlong id input h) (ground arith)
