-- ===== src/Operations/Sent.antt =====
-- What each operation of impl/operations puts on the transport, field by field.
use cpp_client.Prelude.{
  ℕ, ◌+◌, ◌*◌, ◌≡◌, refl, ◌∙◌, ap, sym, List, [], ◌∷◌, ◌++◌, map, append-nil, append_assoc, length,
  All, bit_xor, arith,
}
use cpp_client.Prelude.Words.{u32, u64, shr, IsU32}
use cpp_client.Prelude.Maps.{lookup}
use cpp_client.Exceptions.{ok}
use cpp_client.Wire.Write.{write_vint, write_vlong, write_long, write_array}
use cpp_client.Protocol.OpCodes.{is_success, to_op_resp_code, respond}
use cpp_client.Protocol.Header.{HeaderParams, write_header, set_op_code}
use cpp_client.Protocol.Params.{write_expiration_params, write_each}
use cpp_client.Transactions.Remote.{Xid}
use cpp_client.Operations.Exchange.{
  Body, Settings, exchange, begin_request, send, send_key_operation, send_put_operation,
  with_expiration, header_params,
}
use cpp_client.Wire.Stream.{got, ◌>>=◌, return}
use cpp_client.Wire.Read.{read_vint, read_4byte_int}
use cpp_client.Operations.Exchange.{
  answering, no_answer, previous_value, return_versioned_operation_response,
}
use cpp_client.Operations.Keys.{
  get_answer, get_with_version_answer, get_with_metadata_answer, get_operation,
  get_with_version_operation, get_with_metadata_operation, contains_key_operation, remove_operation,
  remove_if_unmodified_operation,
}
use cpp_client.Operations.Values.{
  put_answer, put_if_absent_answer, put_operation, put_if_absent_operation, replace_operation,
  replace_if_unmodified_operation,
}
use cpp_client.Operations.Bulk.{
  read_stats, get_all_answer, clear_operation, size_operation, stats_operation, get_all_operation,
  commit_operation, rollback_operation, write_xid,
}
use cpp_client.Operations.Layout.{
  number, array, kind, Fits, read_fields, write_fields, read_fields-write_fields,
}
use cpp_client.Operations.Requests.{
  Request, gets, gets_with_version, gets_with_metadata, asks_for, removes, removes_if_unmodified,
  puts, puts_if_absent, replaces, replaces_if_unmodified, clears, counts, asks_stats, gets_all,
  commits, rolls_back, sent, body_fields, fields, xid_fields,
}

module _ (s : Settings) (id : ℕ) where
  -- The header, with what follows it.
  abbrev with_header : ℕ → List ℕ → List ℕ
  with_header code body =
      0xA0
      ∷ (write_vlong (u64 (id + 1))
          ++ (s.protocol_version
              ∷ code
              ∷ (write_array s.cache_name
                  ++ (write_vint s.flags ++ (0x03 ∷ (write_vint s.topology_id ++ body))))))

  coded : ℕ → ℕ → HeaderParams
  coded code r = record (header_params s) { op_code = code; op_resp_code = r }

  set_op_code-ok :
      (code r : ℕ)
      → to_op_resp_code code ≡ ok r
      → set_op_code code (header_params s) ≡ ok (coded code r)
  unfolding set_op_code coded
  set_op_code-ok code r e = rw (e, set_op_code) refl

  begun-sent :
      {A : Type 0} (code r : ℕ) (body : List ℕ) (answer : Body A)
      → (begin_request s (ok (coded code r)) (ok body) answer id []).sent ≡ with_header code body
  unfolding begin_request send write_header coded
  begun-sent code r body answer = simp append_assoc refl

  exchange-sent :
      {A : Type 0} (code r : ℕ) (body : List ℕ) (answer : Body A)
      → to_op_resp_code code ≡ ok r
      → (exchange s code (ok body) answer id []).sent ≡ with_header code body
  unfolding exchange
  exchange-sent code r body answer e =
      ap (λ o. (begin_request s o (ok body) answer id []).sent) (set_op_code-ok code r e)
      ∙ begun-sent code r body answer

  -- A request with one part after the header.
  key-sent :
      {A : Type 0} (code r : ℕ) (k : List ℕ) (answer : Body A)
      → to_op_resp_code code ≡ ok r
      → (exchange s code (ok (write_array k)) answer id []).sent
        ≡ with_header code (write_fields (array k ∷ []))
  key-sent code r k answer e =
      exchange-sent code r (write_array k) answer e
      ∙ ap (with_header code) (sym (append-nil (write_array k)))

  write_expiration_params-fits :
      (l i : ℕ)
      → IsU32 l
      → IsU32 i
      → write_expiration_params l i ≡ ok (write_vint l ++ write_vint i)
  unfolding write_expiration_params
  write_expiration_params-fits l i hl hi =
      let el : u32 l ≡ l = ground arith in
      let ei : u32 i ≡ i = ground arith in ground (arith, el, ei)

  with_expiration-fits :
      (l i : ℕ) (before later : List ℕ)
      → IsU32 l
      → IsU32 i
      → with_expiration before (write_expiration_params l i) later
        ≡ ok (before ++ (write_vint l ++ (write_vint i ++ later)))
  unfolding with_expiration
  with_expiration-fits l i before later hl hi =
      ap (λ o. with_expiration before o later) (write_expiration_params-fits l i hl hi)
      ∙ ap (λ t. ok (before ++ t)) (append_assoc (write_vint l) (write_vint i) later)

  put-sent :
      {A : Type 0} (code r : ℕ) (k p : List ℕ) (l i : ℕ) (answer : Body A)
      → to_op_resp_code code ≡ ok r
      → IsU32 l
      → IsU32 i
      → (send_put_operation s code k p l i answer id []).sent
        ≡ with_header code (write_fields (array k ∷ number l ∷ number i ∷ array p ∷ []))
  unfolding send_put_operation
  put-sent code r k p l i answer e hl hi =
      ap (λ o. (exchange s code o answer id []).sent)
        (with_expiration-fits l i (write_array k) (write_array p) hl hi)
      ∙ exchange-sent code r _ answer e
      ∙ ap (λ t. with_header code (write_array k ++ (write_vint l ++ (write_vint i ++ t))))
          (sym (append-nil (write_array p)))

  write_each-fields : (ks : List (List ℕ)) → write_each ks ≡ write_fields (map array ks)
  unfolding write_each
  write_each-fields [] = refl
  write_each-fields (k ∷ ks) = ap (λ t. write_array k ++ t) (write_each-fields ks)

  xid-sent :
      {A : Type 0} (code r format : ℕ) (xid : Xid) (answer : Body A)
      → to_op_resp_code code ≡ ok r
      → (exchange s code (ok (write_xid format xid)) answer id []).sent
        ≡ with_header code (write_fields (xid_fields format xid))
  unfolding write_xid
  xid-sent code r format xid answer e =
      exchange-sent code r _ answer e
      ∙ ap
          (λ t. with_header code (
            write_vint (bit_xor (u32 (format * 2)) (shr format 31))
            ++ (write_array xid.global_id ++ t)))
          (sym (append-nil (write_array xid.branch_id)))

  sent-write_fields :
      (q : Request) → All Fits (body_fields q) → sent s id q ≡ write_fields (fields s id q)
  unfolding get_operation get_with_version_operation get_with_metadata_operation
      contains_key_operation remove_operation remove_if_unmodified_operation put_operation
      put_if_absent_operation replace_operation replace_if_unmodified_operation clear_operation
      size_operation stats_operation get_all_operation commit_operation rollback_operation
      send_key_operation to_op_resp_code respond lookup
  sent-write_fields (gets k) h = key-sent 0x03 0x04 k get_answer refl
  sent-write_fields (gets_with_version k) h = key-sent 0x11 0x12 k get_with_version_answer refl
  sent-write_fields (gets_with_metadata k) h = key-sent 0x1B 0x1C k get_with_metadata_answer refl
  sent-write_fields (asks_for k) h =
      key-sent 0x0F 0x10 k (λ status. no_answer (is_success status)) refl
  sent-write_fields (removes k) h = key-sent 0x0B 0x0C k previous_value refl
  sent-write_fields (removes_if_unmodified k v) h =
      exchange-sent 0x0D 0x0E _ return_versioned_operation_response refl
      ∙ ap (λ t. with_header 0x0D (write_array k ++ t)) (sym (append-nil (write_long v)))
  sent-write_fields (puts k p l i) h = put-sent 0x01 0x02 k p l i put_answer refl h.1.0 h.1.1.0
  sent-write_fields (puts_if_absent k p l i) h =
      put-sent 0x05 0x06 k p l i put_if_absent_answer refl h.1.0 h.1.1.0
  sent-write_fields (replaces k p l i) h =
      put-sent 0x07 0x08 k p l i previous_value refl h.1.0 h.1.1.0
  sent-write_fields (replaces_if_unmodified k p l i v) h =
      ap (λ o. (exchange s 0x09 o return_versioned_operation_response id []).sent)
        (with_expiration-fits l i (write_array k) (write_long v ++ write_array p) h.1.0 h.1.1.0)
      ∙ exchange-sent 0x09 0x0A _ return_versioned_operation_response refl
      ∙ ap
          (λ t.
            with_header 0x09
              (write_array k ++ (write_vint l ++ (write_vint i ++ (write_long v ++ t)))))
          (sym (append-nil (write_array p)))
  sent-write_fields clears h = exchange-sent {A = List ℕ} 0x13 0x14 [] (λ status. no_answer []) refl
  sent-write_fields counts h = exchange-sent 0x29 0x2A [] (λ status. answering read_vint) refl
  sent-write_fields asks_stats h = exchange-sent 0x15 0x16 [] (λ status. answering read_stats) refl
  sent-write_fields (gets_all ks) h =
      exchange-sent 0x2F 0x30 _ get_all_answer refl
      ∙ ap (λ t. with_header 0x2F (write_vint (u32 (length ks)) ++ t)) (write_each-fields ks)
  sent-write_fields (commits format xid) h =
      xid-sent {A = ℕ} 0x3D 0x3E format xid (λ status. answering read_4byte_int) refl
  sent-write_fields (rolls_back format xid) h =
      xid-sent {A = ℕ} 0x3F 0x40 format xid (λ status. read_4byte_int >>= λ code. return (ok 0))
        refl

  -- Where its fields fit their widths, what an operation puts on the transport is read back field by
  -- field: the header with the next message id, and the fields of the request; what follows is left.
  pub read_fields-sent :
      (q : Request) (rest : List ℕ)
      → All Fits (fields s id q)
      → read_fields (map kind (fields s id q)) (sent s id q ++ rest) ≡ got (fields s id q) rest
  read_fields-sent q rest h =
      ap (λ t. read_fields (map kind (fields s id q)) (t ++ rest))
        (sent-write_fields q h.1.1.1.1.1.1.1.1)
      ∙ read_fields-write_fields (fields s id q) rest h
