-- ===== src/Protocol/Header.antt =====
-- writeHeader, readHeader and checkForErrorsInResponseStatus of impl/protocol/Codec20.cpp.
use cpp_client.Prelude.{
  ℕ, ◌+◌, Bool, true, false, not, ◌&&◌, ◌||◌, List, [], ◌∷◌, ◌++◌, Option, none, ◌==◌, leb,
  if◌then◌else◌,
}
use cpp_client.Prelude.Words.{u64}
use cpp_client.Address.{Address}
use cpp_client.Exceptions.{
  Exception, Outcome, ok, throws, fault, client, transport, invalid_response, remote_node_suspect,
  internal,
}
use cpp_client.Wire.Stream.{Read, got, ended, undefined}
use cpp_client.Wire.Read.{read_byte, read_vlong, read_array}
use cpp_client.Wire.Write.{write_vint, write_vlong, write_array}
use cpp_client.Protocol.OpCodes.{request_magic, response_magic, error_response, to_op_resp_code}
use cpp_client.Protocol.Topology.{TopologyUpdate, read_new_topology_if_present}

pub record HeaderParams : Type 0 where
  pub op_code : ℕ
  pub op_resp_code : ℕ
  pub cache_name : List ℕ
  pub flags : ℕ
  pub client_intel : ℕ
  pub topology_id : ℕ
  pub message_id : ℕ
  pub topology_age : ℕ

unfoldable pub set_op_code : ℕ → HeaderParams → Outcome HeaderParams
unfolding to_op_resp_code
set_op_code code p = elim (to_op_resp_code code) [
  | ok r ↦ ok (record p { op_code = code; op_resp_code = r })
  | throws e ↦ throws e
  | fault ↦ fault
]

-- The bytes of a header, the parameters with the new message id, and the counter of messages, which
-- is incremented under its lock.
unfoldable pub write_header : ℕ → ℕ → HeaderParams → List ℕ × HeaderParams × ℕ
write_header protocol_version msg_id p =
    let id = u64 (msg_id + 1) in
    (
      request_magic
          ∷ (write_vlong id
              ++ (protocol_version
                  ∷ p.op_code
                  ∷ (write_array p.cache_name
                      ++ (write_vint p.flags ++ (p.client_intel ∷ write_vint p.topology_id))))),
      record p { message_id = id },
      id,
    )

-- What a response header comes to: a status, the topology it carried and the bytes after it; or an
-- exception, with the topology that was read before it and whether the transport stays valid.
pub data Response : Type 0 where
  accepted : ℕ → Option TopologyUpdate → List ℕ → Response
  rejected : Exception → Option TopologyUpdate → Bool → Response
  broken : Response

unfoldable pub starts_with : List ℕ → List ℕ → Bool
starts_with [] s = true
starts_with (c ∷ cs) [] = false
starts_with (c ∷ cs) (d ∷ ds) = (c == d) && starts_with cs ds

-- `find(needle) != npos`
unfoldable pub has_text : List ℕ → List ℕ → Bool
unfolding starts_with
has_text needle [] = starts_with needle []
has_text needle (c ∷ cs) = starts_with needle (c ∷ cs) || has_text needle cs

-- "SuspectException" and "SuspectedException"
abbrev pub suspect_exception : List ℕ
suspect_exception =
    83 ∷ 117 ∷ 115 ∷ 112 ∷ 101 ∷ 99 ∷ 116 ∷ 69 ∷ 120 ∷ 99 ∷ 101 ∷ 112 ∷ 116 ∷ 105 ∷ 111 ∷ 110 ∷ []

abbrev pub suspected_exception : List ℕ
suspected_exception =
    83 ∷ 117 ∷ 115 ∷ 112 ∷ 101 ∷ 99 ∷ 116 ∷ 101 ∷ 100 ∷ 69 ∷ 120 ∷ 99 ∷ 101 ∷ 112 ∷ 116 ∷ 105 ∷ 111
    ∷ 110 ∷ []

-- The statuses whose response carries a message.
unfoldable pub has_message : ℕ → Bool
has_message status =
    (status == 0x81)
    || ((status == 0x84)
        || ((status == 0x82) || ((status == 0x85) || ((status == 0x86) || (status == 0x83)))))

-- The statuses after which the transport is not used again.
unfoldable pub invalidates : ℕ → Bool
invalidates status =
    (status == 0x81) || ((status == 0x84) || ((status == 0x82) || (status == 0x83)))

-- A server's message, or the exception of the socket; `a` is the address of the transport.
unfoldable pub message_exception : Address → Read (List ℕ) → Outcome Exception
unfolding has_text
message_exception a (got msg rest) = ok (
    if has_text suspect_exception msg || has_text suspected_exception msg
    then remote_node_suspect
    else client)
message_exception a ended = ok (transport a.hostname a.port)
message_exception a undefined = fault

-- `"Unknown status: " + status` moves a pointer into the literal, which has 16 characters.
unfoldable pub check_for_errors : Address → ℕ → List ℕ → Outcome Exception
unfolding has_message message_exception
check_for_errors a status input =
    if has_message status
    then message_exception a (read_array input)
    else if leb status 16
    then ok internal
    else fault

module _ (a : Address) where
  -- Going on with what was read, or the exception of the socket.
  unfoldable pub reading : {A : Type 0} → Read A → (A → List ℕ → Response) → Response
  reading (got x rest) next = next x rest
  reading ended next = rejected (transport a.hostname a.port) none true
  reading undefined next = broken

  unfoldable pub error_of : ℕ → Option TopologyUpdate → Outcome Exception → Response
  unfolding invalidates
  error_of status topology (ok e) = rejected e topology (not (invalidates status))
  error_of status topology (throws e) = rejected e topology (not (invalidates status))
  error_of status topology fault = broken

  -- After the topology: the code of the response, or an error.
  unfoldable pub check_op_code : HeaderParams → ℕ → ℕ → Option TopologyUpdate → List ℕ → Response
  unfolding error_of check_for_errors
  check_op_code p received status topology input =
      if received == p.op_resp_code
      then accepted status topology input
      else if received == error_response
      then error_of status topology (check_for_errors a status input)
      else rejected invalid_response topology true

  unfoldable pub read_after_id : HeaderParams → List ℕ → Response
  unfolding reading check_op_code
  read_after_id p input = reading (read_byte input) λ received i1.
      reading (read_byte i1) λ status i2.
        reading (read_new_topology_if_present i2)
          λ topology i3. check_op_code p received status topology i3

  unfoldable pub read_after_magic : HeaderParams → List ℕ → Response
  unfolding reading read_after_id
  read_after_magic p input = reading (read_vlong input) λ id i2.
      if (id == p.message_id) || (id == 0)
      then read_after_id p i2
      else rejected invalid_response none true

  unfoldable pub read_header : HeaderParams → List ℕ → Response
  unfolding reading read_after_magic
  read_header p input = reading (read_byte input) λ magic i1.
      if magic == response_magic then read_after_magic p i1 else rejected invalid_response none true
