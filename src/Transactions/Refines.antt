-- ===== src/Transactions/Refines.antt =====
-- The operations inside a transaction against a map from keys to values.
use cpp_client.Prelude.{
  ℕ, ◌≡◌, refl, ◌∙◌, ap, sym, inl, inr, Bool, true, false, List, Option, none, some, if◌then◌else◌,
}
use cpp_client.Exceptions.{ok, throws, tx_state, ◌>>=◌, return}
use cpp_client.Transactions.Context.{set_value, set_value_as_deleted, no_metadata}
use cpp_client.Transactions.Cache.{
  CacheImpl, RemoteCacheBase, State, context, with_context, on_context, transactional_base_get,
  transactional_base_put, put_copy, previous, expiring, accept_rw, base_get, base_put,
  base_put_if_absent, base_replace, base_remove, put_absent, replace_value, delete_value, hand_over,
}
use cpp_client.Transactions.Overlay.{contents, known-write, overlay, Agrees, Did-twice, left_at}
use cpp_client.Transactions.Steps.{
  OnOk, OnOk-map, if-OnOk, then_run-OnOk, DidTo, wrote-Did, moved-Did,
}
use cpp_client.Transactions.GetPut.{Reads, get-Did, put_copy-Did}
use cpp_client.Transactions.Operations.{
  Operation, gets, puts, puts_if_absent, replaces, removes, key_of, result, answer, run,
  inside-OnOk, guarded-OnOk,
}

module _ (r : CacheImpl) (c : RemoteCacheBase) {V : Type 0} (content : ℕ → V)
    (copies : (p : ℕ) (w : r.World) → content (r.value_copy_constructor p w).0 ≡ content p) where
  -- Where an operation that may have read its key goes on.
  record Ready (s : State r c) (k : List ℕ) (force : Bool) (v : Option ℕ) (s' : State r c)
      : Type 0 where
    was : Option V
    meets : Agrees r c content (overlay r c content s' k) was
    first :
        {t : State r c} {z : Option V}
        → DidTo r c content s' t k was z
        → DidTo r c content s t k was z
    value : contents content v ≡ (if force then was else none)

  agreeing : (o : Option (Option V)) → (x : Option V) × Agrees r c content o x
  agreeing none = (none, inl refl)
  agreeing (some x) = (x, inr refl)

  previous-Ready :
      (force : Bool) (s : State r c) (key : r.Key)
      → OnOk (Ready s (r.base_key_marshall key) force) (previous r c force key s)
  unfolding previous
  previous-Ready true s key =
      OnOk-map (Reads r c content copies s key) _ _ (get-Did r c content copies s key) λ v t d.
        record {
          was = contents content v;
          meets = inr (left_at r c content d);
          first = λ two. Did-twice r c content (contents content v) d two;
          value = refl;
        }
  previous-Ready false s key =
      let (x, agrees) = agreeing (overlay r c content s (r.base_key_marshall key)) in
      record { was = x; meets = agrees; first = λ d. d; value = refl }

  abbrev pub Refines : Operation r.Key → State r c → Option ℕ → State r c → Type 0
  Refines op s v s' =
      (x : Option V) × DidTo r c content s s' (r.base_key_marshall (key_of op)) x
        (result content op x)
      × (contents content v ≡ answer c.force_return_value op x)

  -- A write that leaves `now`, and answers the value that it met where that is asked for.
  abbrev Writes : State r c → r.Key → Bool → Option V → Option ℕ → State r c → Type 0
  Writes s key force now v s' =
      (x : Option V) × DidTo r c content s s' (r.base_key_marshall key) x now
      × (contents content v ≡ (if force then x else none))

  put-Ready :
      (force : Bool) (s : State r c) (key : r.Key) (p life idle : ℕ) (v : Option ℕ) (t : State r c)
      → Ready s (r.base_key_marshall key) force v t
      → OnOk (Writes s key force (some (content p))) (put_copy r c key p life idle v t)
  put-Ready force s key p life idle v t ready =
      OnOk-map
        (λ v' t'.
          DidTo r c content t t' (r.base_key_marshall key) ready.was (some (content p)) × (v' ≡ v))
        (Writes s key force (some (content p))) (put_copy r c key p life idle v t)
        (put_copy-Did r c content copies t key p life idle v ready.was ready.meets)
        λ v' t' d. (ready.was, ready.first d.0, ap (contents content) d.1 ∙ ready.value)

  put-Writes :
      (force : Bool) (s : State r c) (key : r.Key) (p life idle : ℕ)
      → OnOk
          (Writes s key force (some (content p)))
          (transactional_base_put r c key p life idle force s)
  unfolding transactional_base_put
  put-Writes force s key p life idle =
      if-OnOk (Writes s key force (some (content p))) (accept_rw s.transaction.status)
        ((previous r c force key >>= put_copy r c key p life idle) s) (throws tx_state, s)
        (λ _.
          then_run-OnOk (Ready s (r.base_key_marshall key) force)
            (Writes s key force (some (content p))) (put_copy r c key p life idle)
            (previous r c force key s) (previous-Ready force s key)
            (put-Ready force s key p life idle))
        (λ _. tt)

  delete-Writes :
      (force : Bool) (s : State r c) (key : r.Key)
      → OnOk (Writes s key force none) ((previous r c force key >>= delete_value r c key) s)
  unfolding delete_value on_context
  delete-Writes force s key =
      let k = r.base_key_marshall key in
      then_run-OnOk (Ready s k force) (Writes s key force none) (delete_value r c key)
        (previous r c force key s) (previous-Ready force s key)
        λ v t ready. (
          ready.was,
          ready.first (
              wrote-Did r c content t (set_value_as_deleted k (context r c t)) k ready.was none
                ready.meets
                λ j. (known-write content k j none no_metadata true 0 (context r c t)).2),
          ready.value,
        )

  -- putIfAbsent once the key has been read.
  absent-Refines :
      (s : State r c) (key : r.Key) (p life idle : ℕ) (v : Option ℕ) (t : State r c)
      → Reads r c content copies s key v t
      → OnOk (Refines (puts_if_absent key p life idle) s) (put_absent r c key p life idle v t)
  unfolding put_absent
  absent-Refines s key p life idle (some q) t d = (some (content q), d, refl)
  absent-Refines s key p life idle none t d =
      then_run-OnOk (Writes t key false (some (content p)))
        (Refines (puts_if_absent key p life idle) s) (λ _. return none)
        (transactional_base_put r c key p life idle false t) (put-Writes false t key p life idle)
        λ v t' w. (none, Did-twice r c content none d (w.1), refl)

  handed :
      (s : State r c) (key : r.Key) (p life idle old : ℕ) (t : State r c)
      → DidTo r c content s t (r.base_key_marshall key) (some (content old)) (some (content p))
      → OnOk (Refines (replaces key p life idle) s) (hand_over r c old t)
  unfolding hand_over
  handed s key p life idle old t d =
      if-OnOk (Refines (replaces key p life idle) s) c.force_return_value (ok (some old), t)
        (ok none, record t { world = r.value_destructor old t.world })
        (λ e. (some (content old), d, ap (λ b. if b then some (content old) else none) (sym e)))
        (λ e. (
          some (content old),
          moved-Did r c content d refl,
          ap (λ b. if b then some (content old) else none) (sym e),
        ))

  same_if : (x : Option V) (b : Bool) → x ≡ (if b then x else x)
  same_if x true = refl
  same_if x false = refl

  replace-Refines :
      (s : State r c) (key : r.Key) (p life idle : ℕ) (v : Option ℕ) (t : State r c)
      → Reads r c content copies s key v t
      → OnOk (Refines (replaces key p life idle) s) (replace_value r c key p life idle v t)
  unfolding replace_value on_context
  replace-Refines s key p life idle none t d = (none, d, same_if none c.force_return_value)
  replace-Refines s key p life idle (some old) t d =
      let k = r.base_key_marshall key in
      let tc = set_value k (some p) (expiring r c life idle) true (context r c t) in
      handed s key p life idle old (with_context r c tc t) (
        Did-twice r c content (some (content old)) d (
          wrote-Did r c content t tc k (some (content old)) (some (content p))
            (inr (left_at r c content d))
            λ j.
              (known-write content k j (some p) (expiring r c life idle) true 0 (context r c t)).0))

  -- Inside a transaction that accepts writes, an operation that ends with an answer has met some
  -- value of its key, the known one if one was known, and leaves the value that it means to. Of
  -- a get the application is told the met value, and so it is of a put, a replace or a removal where
  -- the previous value is asked for, but of a putIfAbsent it is told none, whatever value was met and
  -- whatever is asked for. No other key changes, and neither does the status.
  pub run-Refines :
      (op : Operation r.Key) (s : State r c)
      → c.transactional ≡ true
      → accept_rw s.transaction.status ≡ true
      → OnOk (Refines op s) (run r c op s)
  unfolding run base_get base_put base_put_if_absent base_replace base_remove
  run-Refines (gets key) s t h =
      inside-OnOk r c (Refines (gets key) s) (transactional_base_get r c key) (r.get key) s t h (
        OnOk-map (Reads r c content copies s key) (Refines (gets key) s)
          (transactional_base_get r c key s) (get-Did r c content copies s key)
          λ v s' d. (contents content v, d, refl))
  run-Refines (puts key p life idle) s t h =
      inside-OnOk r c (Refines (puts key p life idle) s)
        (transactional_base_put r c key p life idle c.force_return_value) (r.put key p life idle) s
        t h (put-Writes c.force_return_value s key p life idle)
  run-Refines (puts_if_absent key p life idle) s t h =
      inside-OnOk r c (Refines (puts_if_absent key p life idle) s)
        (transactional_base_get r c key >>= put_absent r c key p life idle)
        (r.put_if_absent key p life idle) s t h
        (then_run-OnOk (Reads r c content copies s key) (Refines (puts_if_absent key p life idle) s)
          (put_absent r c key p life idle) (transactional_base_get r c key s)
          (get-Did r c content copies s key) (absent-Refines s key p life idle))
  run-Refines (replaces key p life idle) s t h =
      guarded-OnOk r c (Refines (replaces key p life idle) s)
        (transactional_base_get r c key >>= replace_value r c key p life idle)
        (r.replace key p life idle) s t h
        (then_run-OnOk (Reads r c content copies s key) (Refines (replaces key p life idle) s)
          (replace_value r c key p life idle) (transactional_base_get r c key s)
          (get-Did r c content copies s key) (replace-Refines s key p life idle))
  run-Refines (removes key) s t h =
      guarded-OnOk r c (Refines (removes key) s)
        (previous r c c.force_return_value key >>= delete_value r c key) (r.remove key) s t h
        (delete-Writes c.force_return_value s key)
