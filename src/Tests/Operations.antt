-- ===== src/Tests/Operations.antt =====
-- Requests and responses of operations at concrete keys and values.
use cpp_client.Protocol.OpCodes.{is_success}
use cpp_client.Protocol.Topology.{read_new_topology_if_present}
use cpp_client.Wire.Read.{read_bytes, read_vint, read_array, read_var_loop, read_vlong, read_byte}
use cpp_client.Prelude.Maps.{lookup}
use cpp_client.Prelude.{◌≡◌, refl, [], ◌∷◌, ◌++◌, map, none, arith}
use cpp_client.Wire.Stream.{got}
use cpp_client.Operations.Exchange.{Settings, answered}
use cpp_client.Operations.Keys.{remove_if_unmodified_operation, get_operation}
use cpp_client.Operations.Bulk.{get_all_operation}
use cpp_client.Operations.Layout.{kind, read_fields}
use cpp_client.Operations.Requests.{Request, replaces_if_unmodified, sent, fields}
use cpp_client.Operations.Replies.{
  requested, payload, judged, remove_if_unmodified_operation-judged,
}
use cpp_client.Protocol.Exchange.{plain_response}
use cpp_client.Operations.Sent.{read_fields-sent}

abbrev settings : Settings
settings = record {
  protocol_version = 20;
  cache_name = 99 ∷ [];
  flags = 1;
  topology_id = 7;
  address = record { hostname = 65 ∷ []; port = 1 };
}

abbrev change : Request
change = replaces_if_unmodified (1 ∷ 2 ∷ []) (3 ∷ []) 60 0 5

read_fields-sent_example :
    read_fields (map kind (fields settings 8 change)) (sent settings 8 change ++ (9 ∷ []))
    ≡ got (fields settings 8 change) (9 ∷ [])
read_fields-sent_example = read_fields-sent settings 8 change (9 ∷ []) (
  omega arith,
  (
    omega arith,
    (
      omega arith,
      (
        omega arith,
        (
          omega arith,
          (
            omega arith,
            (
              omega arith,
              (
                omega arith,
                (omega arith, (omega arith, (omega arith, (omega arith, (omega arith, tt))))),
              ),
            ),
          ),
        ),
      ),
    ),
  ),
)

-- The value that the server sends is the answer.
get_answered :
    (get_operation settings (1 ∷ []) 0 (0xA1 ∷ 1 ∷ 0x04 ∷ 0x00 ∷ 0 ∷ 2 ∷ 40 ∷ 41 ∷ [])).reply
    ≡ answered (40 ∷ 41 ∷ []) none []
unfolding get_operation lookup read_byte read_vlong read_var_loop read_new_topology_if_present
    is_success read_array read_vint read_bytes
get_answered = refl

-- A server in compatibility mode answers with another status: the entries stay on the transport.
get_all_left :
    (get_all_operation settings
      ((1 ∷ []) ∷ [])
      0
      (0xA1 ∷ 1 ∷ 0x30 ∷ 0x06 ∷ 0 ∷ 1 ∷ 1 ∷ 1 ∷ 1 ∷ 40 ∷ [])).reply
    ≡ answered [] none (1 ∷ 1 ∷ 1 ∷ 1 ∷ 40 ∷ [])
unfolding get_all_operation lookup read_byte read_vlong read_var_loop read_new_topology_if_present
get_all_left = refl

-- The entry has changed, and the response carries its value.
remove_if_unmodified_operation-judged_example :
    (remove_if_unmodified_operation settings (1 ∷ []) 5 0 (
      plain_response (requested settings 0 0x0D 0x0E) 0x04 (payload 0x04 (40 ∷ []) (9 ∷ [])))).reply
    ≡ judged 0x04 (40 ∷ []) (9 ∷ [])
remove_if_unmodified_operation-judged_example =
    remove_if_unmodified_operation-judged settings 0 5 0x04 (1 ∷ []) (40 ∷ []) (9 ∷ [])
      (omega arith)
