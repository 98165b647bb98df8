-- ===== src/Tests/Events.antt =====
-- The dispatcher at concrete messages.
use cpp_client.Wire.Read.{read_vlong, read_byte}
use cpp_client.Prelude.{◌≡◌, ◌≢◌, refl, true, false, [], ◌∷◌, arith}
use cpp_client.Address.{Address}
use cpp_client.Exceptions.{invalid_response}
use cpp_client.Events.Read.{created, removed, expired, custom}
use cpp_client.Events.Dispatcher.{dispatch, ends, terminates, recovers, running, Dispatched}
use cpp_client.Events.Layout.{Message, IsSendable, event_bytes, of_created, of_removed}
use cpp_client.Events.Runs.{stream, deliveries, dispatch-stream, dispatch-ends}
use cpp_client.Events.Expired.{dispatch-expired}

abbrev server : Address
server = record { hostname = 65 ∷ []; port = 11222 }

abbrev first : Message
first = record {
  message_id = 7;
  listener_id = 1 ∷ [];
  kind = of_created;
  event = created (65 ∷ []) 3 false;
}

abbrev second : Message
second = record {
  message_id = 8;
  listener_id = 1 ∷ [];
  kind = of_created;
  event = removed (65 ∷ []) true;
}

-- What a converter makes of the removal of an entry.
abbrev converted : Message
converted = record {
  message_id = 9;
  listener_id = 1 ∷ [];
  kind = of_removed;
  event = custom (66 ∷ []) false;
}

first-IsSendable : IsSendable first
first-IsSendable = record {
  id_fits = omega arith;
  listener_fits = omega arith;
  event_fits = (omega arith, omega arith);
}

second-IsSendable : IsSendable second
second-IsSendable = record {
  id_fits = omega arith;
  listener_fits = omega arith;
  event_fits = omega arith;
}

converted-IsSendable : IsSendable converted
converted-IsSendable = record {
  id_fits = omega arith;
  listener_fits = omega arith;
  event_fits = omega arith;
}

dispatch-stream_example :
    dispatch server 21 (stream server 21 (first ∷ second ∷ converted ∷ []) [])
    ≡ deliveries server 21 (first ∷ second ∷ converted ∷ []) (dispatch server 21 [])
dispatch-stream_example =
    dispatch-stream server 21 (first ∷ second ∷ converted ∷ []) [] (omega arith)
      (first-IsSendable, (second-IsSendable, (converted-IsSendable, tt)))

nothing_sent : dispatch server 21 [] ≡ ends recovers
unfolding dispatch read_byte
nothing_sent = refl

no_event :
    dispatch server 21 (0xA1 ∷ 7 ∷ 0x04 ∷ 0 ∷ 0 ∷ []) ≡ ends cpp_client.Events.Dispatcher.breaks
unfolding dispatch read_byte read_vlong
no_event = refl

dispatch-ends_example : (dispatch server 21 (0xA1 ∷ 7 ∷ 0x60 ∷ [])).ending ≢ running
dispatch-ends_example = dispatch-ends server 21 (0xA1 ∷ 7 ∷ 0x60 ∷ [])

dispatch-expired_example :
    dispatch server 20 (
      event_bytes
        (record {
          message_id = 7;
          listener_id = 1 ∷ [];
          kind = of_created;
          event = expired (65 ∷ []);
        })
        (event_bytes first []))
    ≡ ends (terminates invalid_response)
dispatch-expired_example =
    dispatch-expired server 20 (omega arith) 7 (1 ∷ []) (65 ∷ []) (event_bytes first [])
      (omega arith) (omega arith) (omega arith)
