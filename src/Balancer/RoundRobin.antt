-- ===== src/Balancer/RoundRobin.antt =====
-- The rotation: which server the balancer answers, and when it gives up.
use native.Mathlib.Nat.{mod_self, add_assoc, mod-add-mod, mod-eq_of_lt}
use cpp_client.Prelude.{
  if◌then◌else◌, dec_lt, ℕ, zero, suc, ◌+◌, ◌-◌, ◌%◌, ◌<◌, ◌≡◌, refl, sym, ap, ◌∙◌, ◌⊎◌, inl, inr,
  Bool, true, false, length, get_elem?, get_elem?-lt, some, arith, Bool-cases,
}
use cpp_client.Address.{Address}
use cpp_client.Exceptions.{Outcome, ok, throws, client}
use cpp_client.Balancer.{leb, Balancer, advance, next_loop, next_server}

-- The server that the `d`-th round looks at.
abbrev pub visited : Balancer → ℕ → ℕ
visited b d = (b.index + 1 + d) % length b.servers

-- The server at a position has failed.
abbrev pub FailedAt : (Address → Bool) → Balancer → ℕ → Type 0
FailedAt failed b p = (a : Address) → get_elem? b.servers p ≡ some a → failed a ≡ true

-- What `rounds` rounds answer: the first server of the rotation that has not failed, with the
-- index left at it; or an exception, each having failed.
pub record Found (failed : Address → Bool) (b : Balancer) (rounds : ℕ)
    (r : Outcome Address × Balancer) : Type 0 where
  pub distance : ℕ
  pub server : Address
  pub in_reach : distance < rounds
  pub answer : r ≡ (ok server, record b { index = visited b distance })
  pub position : get_elem? b.servers (visited b distance) ≡ some server
  pub live : failed server ≡ false
  pub skipped : (e : ℕ) → e < distance → FailedAt failed b (visited b e)

pub record GaveUp (failed : Address → Bool) (b : Balancer) (rounds : ℕ)
    (r : Outcome Address × Balancer) : Type 0 where
  pub answer : r.0 ≡ throws client
  pub kept : r.1.servers ≡ b.servers
  pub all : (e : ℕ) → e < rounds → FailedAt failed b (visited b e)

wrap : (n i : ℕ) → i < n → (if leb n (i + 1) then 0 else i + 1) ≡ (i + 1) % n
wrap n i h = elim (dec_lt (i + 1) n) [
  | yes more ↦ ground (arith, mod-eq_of_lt more)
  | no last ↦ let e : n ≡ i + 1 = omega arith in ground (arith, mod_self n, ap (λ (t : ℕ). t % n) e)
]

rotate :
    (n i d : ℕ) → i < n → ((if leb n (i + 1) then 0 else i + 1) + 1 + d) % n ≡ (i + 1 + suc d) % n
rotate n i d h =
    ap (λ (t : ℕ). (t + 1 + d) % n) (wrap n i h)
    ∙ ap (λ (t : ℕ). t % n) (add_assoc ((i + 1) % n) 1 d)
    ∙ mod-add-mod (i + 1) n (1 + d)
    ∙ ap (λ (t : ℕ). t % n) (omega arith)

-- The first round looks at the next server, and each later one at what the rounds from there do.
next_round :
    (n : ℕ) (failed : Address → Bool) (b : Balancer) (a : Address)
    → get_elem? b.servers (advance b) ≡ some a
    → next_loop (suc n) failed b ≡ (
        if failed a
        then next_loop n failed (record b { index = advance b })
        else (ok a, record b { index = advance b }))
unfolding next_loop
next_round n failed b a e = rw (e, next_loop)

first_live :
    (n : ℕ) (failed : Address → Bool) (b : Balancer) (a : Address)
    → b.index < length b.servers
    → get_elem? b.servers (advance b) ≡ some a
    → failed a ≡ false
    → Found failed b (suc n) (next_loop (suc n) failed b)
first_live n failed b a h e up =
    let here : advance b ≡ visited b 0 =
      wrap (length b.servers) b.index h ∙ ap (λ (t : ℕ). t % length b.servers) (omega arith) in
    record {
      distance = 0;
      server = a;
      in_reach = omega arith;
      answer = next_round n failed b a e ∙ rw (up, here);
      position = ap (get_elem? b.servers) (sym here) ∙ e;
      live = up;
      skipped = λ i lt. absurd (omega arith);
    }

shift_failed :
    (failed : Address → Bool) (b : Balancer) (a : Address) (n : ℕ)
    → b.index < length b.servers
    → get_elem? b.servers (advance b) ≡ some a
    → failed a ≡ true
    → ((e : ℕ)
        → e < n
        → FailedAt failed
            (record b { index = advance b })
            (visited (record b { index = advance b }) e))
    → (e : ℕ) → e < suc n
    → FailedAt failed b (visited b e)
shift_failed failed b a n h e down rest zero lt x q =
    let here : advance b ≡ visited b 0 =
      wrap (length b.servers) b.index h ∙ ap (λ (t : ℕ). t % length b.servers) (omega arith) in
    ground (arith, e, q, ap (get_elem? b.servers) here)
shift_failed failed b a n h e down rest (suc i) lt x q =
    rest i (omega arith) x (ap (get_elem? b.servers) (rotate (length b.servers) b.index i h) ∙ q)

later :
    (n : ℕ) (failed : Address → Bool) (b : Balancer) (a : Address)
    → b.index < length b.servers
    → get_elem? b.servers (advance b) ≡ some a
    → failed a ≡ true
    → let b' = record b { index = advance b } in
      Found failed b' n (next_loop n failed b') ⊎ GaveUp failed b' n (next_loop n failed b')
      → Found failed b (suc n) (next_loop (suc n) failed b)
        ⊎ GaveUp failed b (suc n) (next_loop (suc n) failed b)
later n failed b a h e down (inl f) =
    let turn = rotate (length b.servers) b.index f.distance h in
    inl (record {
      distance = suc f.distance;
      server = f.server;
      in_reach = omega (arith, f.in_reach);
      answer = next_round n failed b a e ∙ rw down (f.answer ∙ rw turn);
      position = ap (get_elem? b.servers) (sym turn) ∙ f.position;
      live = f.live;
      skipped = shift_failed failed b a f.distance h e down f.skipped;
    })
later n failed b a h e down (inr g) = inr (record {
  answer =
      ap (λ (p : Outcome Address × Balancer). p.0) (next_round n failed b a e) ∙ rw down g.answer;
  kept =
      ap (λ (p : Outcome Address × Balancer). p.1.servers) (next_round n failed b a e)
      ∙ rw down g.kept;
  all = shift_failed failed b a n h e down g.all;
})

loop_answer :
    (rounds : ℕ) (failed : Address → Bool) (b : Balancer)
    → b.index < length b.servers
    → Found failed b rounds (next_loop rounds failed b)
      ⊎ GaveUp failed b rounds (next_loop rounds failed b)
loop_answer zero failed b h =
    inr (
      unfold next_loop in record { answer = refl; kept = refl; all = λ e lt. absurd (omega arith) })
loop_answer (suc n) failed b h =
    let inside : advance b < length b.servers = ground arith in
    let (a, e) = get_elem?-lt b.servers (advance b) inside in
    elim (Bool-cases (failed a)) [
      | inr up ↦ inl (first_live n failed b a h e up)
      | inl down ↦
          later n failed b a h e down (loop_answer n failed (record b { index = advance b }) inside)
    ]

once_round : (n p : ℕ) → p < n → (p + n) % n ≡ p
once_round n p h = grind arith

reached : (n i p : ℕ) → i < n → p < n → (d : ℕ) × (d < n) × ((i + 1 + d) % n ≡ p)
reached n i p hi hp = elim (dec_lt i p) [
  | yes ahead ↦
      (p - (i + 1), omega arith, ap (λ (t : ℕ). t % n) (omega arith) ∙ mod-eq_of_lt {n = p} hp)
  | no behind ↦
      (p + n - (i + 1), omega arith, ap (λ (t : ℕ). t % n) (omega arith) ∙ once_round n p hp)
]

-- With its index in range, nextServer answers the first server in rotation after the index that has
-- not failed, and leaves the index at it; it throws exactly when every server has failed, and then
-- it keeps its servers.
pub next_server-first_live :
    (failed : Address → Bool) (b : Balancer)
    → b.index < length b.servers
    → Found failed b (length b.servers) (next_server failed b)
      ⊎ (((next_server failed b).0 ≡ throws client)
          × ((next_server failed b).1.servers ≡ b.servers)
          × ((p : ℕ) → p < length b.servers → FailedAt failed b p))
unfolding next_server
next_server-first_live failed b h = elim (loop_answer (length b.servers) failed b h) [
  | inl f ↦ inl f
  | inr g ↦ inr (
    g.answer,
    g.kept,
    λ p lt. let (d, near, e) = reached (length b.servers) b.index p h lt in rw e at (g.all d near),
  )
]
