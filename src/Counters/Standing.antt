-- ===== src/Counters/Standing.antt =====
-- What it is for a name to stand for a counter.
use cpp_client.Prelude.{
  ◌⊎◌, inl, inr, Bool-cases, if◌then◌else◌, ◌≡◌, refl, ◌∙◌, ap, ℕ, true, false, List, [], ◌∷◌, ◌++◌,
  length, get_elem?, Option, none, some,
}
use cpp_client.Prelude.Maps.{bytes_key, lookup, insert, lookup-inserted}
use cpp_client.Exceptions.{Outcome, ok, throws, fault, client}
use cpp_client.Transactions.Steps.{OnOk, if-OnOk}
use cpp_client.Counters.Configuration.{CounterConfiguration}
use cpp_client.Counters.Manager.{
  CounterServers, CounterManager, Counter, Kind, strong_counter, weak_counter, is_kind, is_weak,
  kind_of, keep_counter, cast_counter, found_counter,
}

last_elem : (cs : List Counter) (c : Counter) → get_elem? (cs ++ (c ∷ [])) (length cs) ≡ some c
last_elem [] c = refl
last_elem (x ∷ cs) c = last_elem cs c

same_kind : (k : Kind) → is_kind k k ≡ true
unfolding is_kind
same_kind strong_counter = refl
same_kind weak_counter = refl

is_kind_eq : (k j : Kind) → is_kind k j ≡ true → j ≡ k
unfolding is_kind
is_kind_eq strong_counter strong_counter h = refl
is_kind_eq weak_counter weak_counter h = refl
is_kind_eq strong_counter weak_counter h = cc
is_kind_eq weak_counter strong_counter h = cc

module _ (r : CounterServers) where
  -- The name stands for a counter of this kind at this place.
  pub record Stands (k : Kind) (name : List ℕ) (a : ℕ) (s : CounterManager r) : Type 0 where
    pub found : lookup name s.counters ≡ some a
    pub counter : Counter
    pub there : get_elem? s.made a ≡ some counter
    pub kind_is : is_kind k counter.kind ≡ true

  kept :
      (k : Kind) (name : List ℕ) (x : Outcome CounterConfiguration × r.World) (s : CounterManager r)
      → OnOk (λ a s'. Stands k name a s') (keep_counter r k name x s)
  unfolding keep_counter
  kept k name (throws x, w) s = tt
  kept k name (fault, w) s = tt
  kept k name (ok cc, w) s =
      let new : Counter = record { kind = k; name = name; configuration = cc; removed = false } in
      if-OnOk (λ a s'. Stands k name a s') (is_kind k (kind_of (is_weak cc.type)))
        (
          ok (length s.made),
          record s {
            made = s.made ++ (new ∷ []);
            counters = insert name (length s.made) s.counters;
            world = w;
          },
        )
        (throws client, record s { world = w })
        (λ same. record {
          found = lookup-inserted name (length s.made) s.counters;
          counter = new;
          there = last_elem s.made new;
          kind_is = same_kind k;
        })
        (λ other. tt)

  cast :
      (k : Kind) (name : List ℕ) (a : ℕ) (o : Option Counter) (s : CounterManager r)
      → lookup name s.counters ≡ some a
      → get_elem? s.made a ≡ o
      → OnOk (λ b s'. Stands k name b s') (cast_counter r k a o, s)
  unfolding cast_counter
  cast k name a none s f e = tt
  cast k name a (some c) s f e = cast_if (Bool-cases (is_kind k c.kind))
    where
      cast_if :
          (is_kind k c.kind ≡ true) ⊎ (is_kind k c.kind ≡ false)
          → OnOk (λ b s'. Stands k name b s') (if is_kind k c.kind then ok a else fault, s)
      cast_if (inl h) = rw h (record { found = f; counter = c; there = e; kind_is = h })
      cast_if (inr h) = rw h tt

  pub found :
      (k : Kind) (name : List ℕ) (o : Option ℕ) (s : CounterManager r)
      → lookup name s.counters ≡ o
      → OnOk (λ a s'. Stands k name a s') (found_counter r k name o s)
  unfolding found_counter
  found k name none s e = kept k name (r.get_configuration name s.world) s
  found k name (some a) s e = cast k name a (get_elem? s.made a) s e refl

  pub again :
      (k j : Kind) (name : List ℕ) (a : ℕ) (s : CounterManager r)
      → Stands k name a s
      → found_counter r j name (lookup name s.counters) s ≡ (if is_kind j k then ok a else fault, s)
  unfolding found_counter cast_counter
  again k j name a s h =
      let same : h.counter.kind ≡ k = is_kind_eq k h.counter.kind h.kind_is in
      ap (λ o. found_counter r j name o s) h.found
      ∙ ap (λ o. (cast_counter r j a o, s)) h.there
      ∙ ap (λ t. (if is_kind j t then ok a else fault, s)) same
