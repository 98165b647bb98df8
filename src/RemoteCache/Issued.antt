-- ===== src/RemoteCache/Issued.antt =====
-- Which operation each method of a cache executes, and with which flags.
use cpp_client.Prelude.{
  refl, ap, ◌∙◌, Option, ◌≡◌, true, false, Bool, ℕ, bit_or, ◌==◌, if◌then◌else◌,
}
use cpp_client.Prelude.Words.{u32}
use cpp_client.Exceptions.{Outcome, ok, throws, fault, return, then_run, ◌>>=◌}
use cpp_client.Operations.Requests.{
  Request, gets, gets_with_version, gets_with_metadata, asks_for, removes, removes_if_unmodified,
  puts, puts_if_absent, replaces, replaces_if_unmodified, clears, counts, asks_stats, commits,
  rolls_back,
}
use cpp_client.Transactions.Remote.{Xid}
use cpp_client.RemoteCache.Factory.{
  get_flags, add_flags, force_return_value_flag, OperationsFactory, default_lifespan,
  default_max_idle,
}
use cpp_client.RemoteCache.Impl.{
  is_updated, unmarshalled, issue, ResultOf, apply_default_expiration_flags, assert_is_started,
  Executes, RemoteCacheImpl, get, put, put_if_absent, replace, remove, contains_key,
  replace_with_version, remove_with_version, get_with_version, get_with_metadata, stats, clear,
  size, commit, rollback,
}

module _ (r : Executes) where
  pub data Method : Type 0 where
    gets_key : r.Key → Method
    puts_value : r.Key → r.Value → ℕ → ℕ → Method
    puts_value_if_absent : r.Key → r.Value → ℕ → ℕ → Method
    replaces_value : r.Key → r.Value → ℕ → ℕ → Method
    removes_key : r.Key → Method
    asks_for_key : r.Key → Method
    replaces_with_version : r.Key → r.Value → ℕ → ℕ → ℕ → Method
    removes_with_version : r.Key → ℕ → Method
    gets_version : r.Key → Method
    gets_metadata : r.Key → Method
    gets_stats : Method
    clears_all : Method
    asks_size : Method
    commits_xid : ℕ → Xid → Method
    rolls_back_xid : ℕ → Xid → Method

  -- What a method leaves.
  abbrev pub did : Method → RemoteCacheImpl r → RemoteCacheImpl r
  did (gets_key k) s = (get r k s).1
  did (puts_value k v l i) s = (put r k v l i s).1
  did (puts_value_if_absent k v l i) s = (put_if_absent r k v l i s).1
  did (replaces_value k v l i) s = (replace r k v l i s).1
  did (removes_key k) s = (remove r k s).1
  did (asks_for_key k) s = (contains_key r k s).1
  did (replaces_with_version k v n l i) s = (replace_with_version r k v n l i s).1
  did (removes_with_version k n) s = (remove_with_version r k n s).1
  did (gets_version k) s = (get_with_version r k s).1
  did (gets_metadata k) s = (get_with_metadata r k s).1
  did gets_stats s = (stats r s).1
  did clears_all s = (clear r s).1
  did asks_size s = (size r s).1
  did (commits_xid format xid) s = (commit r format xid s).1
  did (rolls_back_xid format xid) s = (rollback r format xid s).1

  abbrev pub request_of : Method → Request
  request_of (gets_key k) = gets (r.key_marshall k)
  request_of (puts_value k v l i) = puts (r.key_marshall k) (r.value_marshall v) (u32 l) (u32 i)
  request_of (puts_value_if_absent k v l i) =
      puts_if_absent (r.key_marshall k) (r.value_marshall v) (u32 l) (u32 i)
  request_of (replaces_value k v l i) =
      replaces (r.key_marshall k) (r.value_marshall v) (u32 l) (u32 i)
  request_of (removes_key k) = removes (r.key_marshall k)
  request_of (asks_for_key k) = asks_for (r.key_marshall k)
  request_of (replaces_with_version k v n l i) =
      replaces_if_unmodified (r.key_marshall k) (r.value_marshall v) (u32 l) (u32 i) n
  request_of (removes_with_version k n) = removes_if_unmodified (r.key_marshall k) n
  request_of (gets_version k) = gets_with_version (r.key_marshall k)
  request_of (gets_metadata k) = gets_with_metadata (r.key_marshall k)
  request_of gets_stats = asks_stats
  request_of clears_all = clears
  request_of asks_size = counts
  request_of (commits_xid format xid) = commits format xid
  request_of (rolls_back_xid format xid) = rolls_back format xid

  abbrev pub flags_of_times : ℕ → ℕ → ℕ → ℕ
  flags_of_times l i g =
      let one = if l == 0 then bit_or g default_lifespan else g in
      if i == 0 then bit_or one default_max_idle else one

  abbrev pub expiration_flags : Method → ℕ → ℕ
  expiration_flags (puts_value k v l i) g = flags_of_times l i g
  expiration_flags (puts_value_if_absent k v l i) g = flags_of_times l i g
  expiration_flags (replaces_value k v l i) g = flags_of_times l i g
  expiration_flags _ g = g

  -- The flags of withFlags, of the times that are zero, and of the configuration.
  abbrev pub flags_for : Method → OperationsFactory → ℕ
  flags_for m f =
      let g = expiration_flags m f.flags in
      if f.force_return_value then bit_or g force_return_value_flag else g

  -- Whether a method goes on in a manager that may be stopped.
  abbrev pub goes_on : Method → Bool → Bool
  goes_on (commits_xid format xid) started = true
  goes_on (rolls_back_xid format xid) started = true
  goes_on _ started = started

  abbrev pub issued : Method → RemoteCacheImpl r → RemoteCacheImpl r
  issued m s = record s {
    factory = record s.factory { flags = 0 };
    world = (r.execute (flags_for m s.factory) (request_of m) s.world).1;
  }

  return-state :
      {S A B : Type 0} (g : A → B) (x : Outcome A × S) → (then_run (λ a. return (g a)) x).1 ≡ x.1
  return-state g (ok a, s) = refl
  return-state g (throws e, s) = refl
  return-state g (fault, s) = refl

  at : Bool → OperationsFactory → r.World → RemoteCacheImpl r
  at started f w = record { is_started = started; factory = f; world = w }

  timed_flags :
      (a b : Bool) (f : OperationsFactory)
      → (let one = if a then add_flags default_lifespan f else f in
          if b then add_flags default_max_idle one else one)
        ≡ record f {
          flags =
              (let g = if a then bit_or f.flags default_lifespan else f.flags in
                if b then bit_or g default_max_idle else g);
        }
  unfolding add_flags
  timed_flags true true f = refl
  timed_flags true false f = refl
  timed_flags false true f = refl
  timed_flags false false f = refl

  -- A request whose times come first sends the flags of the times.
  timed :
      (q : Request) (l i : ℕ) (s : RemoteCacheImpl r) (g : ResultOf q → Option r.Value)
      → (((apply_default_expiration_flags r l i >>= λ _. issue r q) >>= λ x. return (g x)) s).1
        ≡ (issue r q (record s {
          factory = record s.factory { flags = flags_of_times l i s.factory.flags };
        })).1
  unfolding apply_default_expiration_flags
  timed q l i s g =
      return-state g _
      ∙ ap (λ f. (issue r q (record s { factory = f })).1) (timed_flags (l == 0) (i == 0) s.factory)

  did-issued-at :
      (m : Method) (started : Bool) (f : OperationsFactory) (w : r.World)
      → did m (at started f w)
        ≡ (if goes_on m started then issued m (at started f w) else at started f w)
  unfolding get put put_if_absent replace remove contains_key replace_with_version
      remove_with_version get_with_version get_with_metadata stats clear size commit rollback
      assert_is_started issue get_flags at apply_default_expiration_flags
  did-issued-at (gets_key k) true f w =
      return-state (unmarshalled r) (issue r (gets (r.key_marshall k)) (at true f w))
  did-issued-at (gets_key k) false f w = refl
  did-issued-at (puts_value k v l i) true f w =
      timed (puts (r.key_marshall k) (r.value_marshall v) (u32 l) (u32 i)) l i (at true f w)
        (unmarshalled r)
  did-issued-at (puts_value k v l i) false f w = refl
  did-issued-at (puts_value_if_absent k v l i) true f w =
      timed (puts_if_absent (r.key_marshall k) (r.value_marshall v) (u32 l) (u32 i)) l i
        (at true f w) (unmarshalled r)
  did-issued-at (puts_value_if_absent k v l i) false f w = refl
  did-issued-at (replaces_value k v l i) true f w =
      timed (replaces (r.key_marshall k) (r.value_marshall v) (u32 l) (u32 i)) l i (at true f w)
        (unmarshalled r)
  did-issued-at (replaces_value k v l i) false f w = refl
  did-issued-at (removes_key k) true f w =
      return-state (unmarshalled r) (issue r (removes (r.key_marshall k)) (at true f w))
  did-issued-at (removes_key k) false f w = refl
  did-issued-at (asks_for_key k) true f w = refl
  did-issued-at (asks_for_key k) false f w = refl
  did-issued-at (replaces_with_version k v n l i) true f w = return-state (is_updated r) (
      issue r (replaces_if_unmodified (r.key_marshall k) (r.value_marshall v) (u32 l) (u32 i) n)
        (at true f w))
  did-issued-at (replaces_with_version k v n l i) false f w = refl
  did-issued-at (removes_with_version k n) true f w =
      return-state (is_updated r)
        (issue r (removes_if_unmodified (r.key_marshall k) n) (at true f w))
  did-issued-at (removes_with_version k n) false f w = refl
  did-issued-at (gets_version k) true f w =
      return-state (λ x. (unmarshalled r x.1, x.0))
        (issue r (gets_with_version (r.key_marshall k)) (at true f w))
  did-issued-at (gets_version k) false f w = refl
  did-issued-at (gets_metadata k) true f w =
      return-state (λ x. (unmarshalled r x.1, x.0))
        (issue r (gets_with_metadata (r.key_marshall k)) (at true f w))
  did-issued-at (gets_metadata k) false f w = refl
  did-issued-at gets_stats true f w = refl
  did-issued-at gets_stats false f w = refl
  did-issued-at clears_all true f w = refl
  did-issued-at clears_all false f w = refl
  did-issued-at asks_size true f w = refl
  did-issued-at asks_size false f w = refl
  did-issued-at (commits_xid format xid) true f w = refl
  did-issued-at (commits_xid format xid) false f w = refl
  did-issued-at (rolls_back_xid format xid) true f w = refl
  did-issued-at (rolls_back_xid format xid) false f w = refl

  -- A method of a cache whose manager runs executes one operation, of its request and with its flags,
  -- and uses the flags of the factory up, whatever the operation comes to. In a stopped manager it does
  -- nothing, but for commit and rollback, which do not ask.
  pub did-issued :
      (m : Method) (s : RemoteCacheImpl r)
      → did m s ≡ (if goes_on m s.is_started then issued m s else s)
  unfolding at
  did-issued m s = did-issued-at m s.is_started s.factory s.world
