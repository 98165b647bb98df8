-- ===== src/Managers/Connected.antt =====
-- What holds of the manager of caches whatever is called: impl/RemoteCacheManagerImpl.cpp.
use cpp_client.Prelude.{◌≡◌, sym, ◌∙◌, ◌+◌, true, false, some, All, arith}
use cpp_client.Prelude.Maps.{bytes_key}
use cpp_client.Exceptions.{Outcome, ok, throws, fault, then_run}
use cpp_client.Managers.Impl.{
  Parts, Manager, start_all, start, stop, connect, finish_start, finish_stop, stop_all,
}
use cpp_client.Managers.Steps.{
  Named, Over, Named-Keeps, Over-Keeps, All-map, Moved, if-both, Started, start_all-Started,
  stop_all-Moved,
}

module _ (r : Parts) where
  -- Every entry leads to a cache of its name and flag, and while the manager runs, to one over its
  -- transport factory.
  pub record Sound (s : Manager r) : Type 0 where
    pub named : All (Named s.objects) s.caches
    pub connected : s.is_started ≡ true → All (Over s.objects s.factory) s.caches

  pub Moved-Sound : (s t : Manager r) → Moved r s t → Sound s → Sound t
  Moved-Sound s t a v = record {
    named = rw a.same_caches (
        All-map (Named s.objects) (Named t.objects) s.caches
          (λ x. Named-Keeps s.factory s.objects t.objects x a.keeps) v.named);
    connected = λ on.
        rw (a.same_caches, a.same_factory)
          (All-map (Over s.objects s.factory) (Over t.objects s.factory) s.caches
            (λ x. Over-Keeps s.factory s.objects t.objects x a.keeps)
            (v.connected (sym a.same_started ∙ on)));
  }

  pub stop-Sound : (s : Manager r) → Sound s → Sound (stop r s)
  unfolding stop finish_stop
  stop-Sound s v =
      let t = stop_all r s.caches s in
      let w = Moved-Sound s t (stop_all-Moved r s.caches s) v in
      if-both Sound s.is_started (finish_stop r t) s
        (λ on. record { named = w.named; connected = λ h. ground (arith, h) }) (λ off. v)

  -- A manager that does not run needs names only.
  off-Sound :
      (s t : Manager r)
      → Moved r s t
      → s.is_started ≡ false
      → All (Named s.objects) s.caches
      → Sound t
  off-Sound s t a off named =
      Moved-Sound s t a (record { named = named; connected = λ on. ground (arith, on, off) })

  finished :
      (t : Manager r) (x : Outcome (Unit {0}) × Manager r)
      → Started r t.caches t x
      → t.is_started ≡ false
      → All (Named t.objects) t.caches
      → Sound (then_run (λ _. finish_start r) x).1
  unfolding finish_start
  finished t (throws e, u) a off named = off-Sound t u a.moved off named
  finished t (fault, u) a off named = off-Sound t u a.moved off named
  finished t (ok _, u) a off named = record {
    named = (off-Sound t u a.moved off named).named;
    connected = λ on. rw (a.moved.same_caches, a.moved.same_factory) a.all_over;
  }

  begun :
      (x : Outcome (Unit {0})) (t : Manager r)
      → t.is_started ≡ false
      → All (Named t.objects) t.caches
      → Sound (then_run (λ _. finish_start r) (then_run (λ _ u. start_all r u.caches u) (x, t))).1
  begun (throws e) t off named = record { named = named; connected = λ on. ground (arith, on, off) }
  begun fault t off named = record { named = named; connected = λ on. ground (arith, on, off) }
  begun (ok _) t off named =
      finished t (start_all r t.caches t) (start_all-Started r t.caches t named) off named

  pub start-Sound : (s : Manager r) → Sound s → Sound (start r s).1
  unfolding start connect
  start-Sound s v =
      let opened : Manager r = record s {
        factories = s.factories + 1;
        factory = some s.factories;
      } in
      let (x, w) = r.start_factory s.factories s.world in
      if-both (λ (y : Outcome (Unit {0}) × Manager r). Sound y.1) s.is_started (ok tt, s) _
        (λ on. v) (λ off. begun x (record opened { world = w }) off v.named)
