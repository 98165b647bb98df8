-- ===== src/Transactions/GetPut.antt =====
-- get and put inside a transaction as steps on what the transaction knows of the cache.
use cpp_client.Prelude.{
  ℕ, ◌≡◌, refl, ◌∙◌, ap, sym, subst, inl, inr, true, List, Option, none, some, if◌then◌else◌,
  Bool-cases,
}
use cpp_client.Prelude.Maps.{bytes_key, nat_key, bytes_same}
use cpp_client.Exceptions.{throws, tx_state, ◌>>=◌}
use cpp_client.Transactions.Context.{TransactionContext, MetadataValue, has_value}
use cpp_client.Transactions.Cache.{
  accept_read, CacheImpl, RemoteCacheBase, State, context, on_context, copy_value, read_value,
  transactional_base_get, write_value, put_copy, expiring, not_read,
}
use cpp_client.Transactions.Overlay.{contents, known, known-write, overlay, Agrees}
use cpp_client.Transactions.Steps.{
  OnOk, OnOk-map, if-OnOk, then_run-OnOk, DidTo, before-Did, wrote-Did, moved-Did, overlay-kept,
  read_value-Did,
}

module _ (r : CacheImpl) (c : RemoteCacheBase) {V : Type 0} (content : ℕ → V)
    (copies : (p : ℕ) (w : r.World) → content (r.value_copy_constructor p w).0 ≡ content p) where
  copied :
      (v : Option ℕ) (s : State r c)
      → OnOk
          (λ v' s'. (contents content v' ≡ contents content v) × (s'.transaction ≡ s.transaction))
          (copy_value r c v s)
  unfolding copy_value
  copied none s = (refl, refl)
  copied (some p) s = (ap (λ (x : V). some x) (copies p s.world), refl)

  abbrev pub Reads : State r c → r.Key → Option ℕ → State r c → Type 0
  Reads s key v s' =
      DidTo r c content s s' (r.base_key_marshall key) (contents content v) (contents content v)

  get_copied :
      (s : State r c) (key : r.Key) (v : Option ℕ) (t : State r c)
      → Reads s key v t
      → OnOk (Reads s key) (copy_value r c v t)
  get_copied s key v t d =
      OnOk-map
        (λ v' t'. (contents content v' ≡ contents content v) × (t'.transaction ≡ t.transaction))
        (Reads s key) (copy_value r c v t) (copied v t)
        λ v' t' e.
          subst (λ x. DidTo r c content s t' (r.base_key_marshall key) x x) (sym e.0)
            (moved-Did r c content d e.1)

  -- get meets the value that it answers a copy of, and leaves it there.
  pub get-Did :
      (s : State r c) (key : r.Key) → OnOk (Reads s key) (transactional_base_get r c key s)
  unfolding transactional_base_get
  get-Did s key =
      if-OnOk (Reads s key) (accept_read s.transaction.status)
        ((read_value r c key >>= copy_value r c) s) (throws tx_state, s)
        (λ _.
          then_run-OnOk (Reads s key) (Reads s key) (copy_value r c) (read_value r c key s)
            (read_value-Did r c content s key) (get_copied s key))
        (λ _. tt)

  known-write_value :
      (k j : List ℕ) (p : ℕ) (meta : MetadataValue) (tc : TransactionContext)
      → known content (write_value r c k p meta tc) j
        ≡ (if bytes_same k j then some (some (content p)) else known content tc j)
  unfolding write_value
  known-write_value k j p meta tc = elim (Bool-cases (has_value k tc)) [
    | inl there ↦ rw there (known-write content k j (some p) meta true 0 tc).0
    | inr gone ↦ rw gone (known-write content k j (some p) meta true not_read tc).1
  ]

  pub put_copy-Did :
      (s : State r c) (key : r.Key) (p life idle : ℕ) (ret : Option ℕ) (was : Option V)
      → Agrees r c content (overlay r c content s (r.base_key_marshall key)) was
      → OnOk
          (λ v s'.
            DidTo r c content s s' (r.base_key_marshall key) was (some (content p)) × (v ≡ ret))
          (put_copy r c key p life idle ret s)
  unfolding put_copy on_context
  put_copy-Did s key p life idle ret was agrees =
      let k = r.base_key_marshall key in
      let (q, w) = r.value_copy_constructor p s.world in
      let t = record s { world = w } in
      let same = overlay-kept r c content s t refl in
      let met = subst (λ o. Agrees r c content o was) (sym (same k)) agrees in
      (
        before-Did r c content same refl (
            wrote-Did r c content t (write_value r c k q (expiring r c life idle) (context r c t)) k
              was (some (content p)) met
              λ j.
                known-write_value k j q (expiring r c life idle) (context r c t)
                ∙ ap (λ x. if bytes_same k j then some (some x) else overlay r c content t j)
                    (copies p s.world)),
        refl,
      )
