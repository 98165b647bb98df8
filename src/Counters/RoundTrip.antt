-- ===== src/Counters/RoundTrip.antt =====
-- What the server announces of a configuration that the client defined.
use cpp_client.Prelude.{ℕ, ◌≡◌, refl, ap, ◌∙◌, List, ◌++◌, append_assoc}
use cpp_client.Prelude.Words.{IsU32, IsU64}
use cpp_client.Exceptions.{Outcome, ok}
use cpp_client.Wire.Stream.{Reader, got, ◌>>=◌, >>=-got, return}
use cpp_client.Wire.Read.{read_byte, read_long}
use cpp_client.Wire.Write.{write_long}
use cpp_client.Wire.VarInt.{read_vint-write_vint}
use cpp_client.Wire.Fixed.{read_long-write_long}
use cpp_client.Counters.Configuration.{
  volatile, persistent, storage_of, write_configuration, type_of, read_configuration, storage_flags,
  type_flags, CounterConfiguration, CounterType, unbounded_strong, bounded_strong, weak, Storage,
  level_bytes, bounds_bytes, read_typed, read_level, read_bounds,
}

-- The fields of a configuration that belong to its type.
abbrev pub level_of : CounterType → ℕ → ℕ
level_of weak level = level
level_of bounded_strong level = 0
level_of unbounded_strong level = 0

abbrev pub bound_of : CounterType → ℕ → ℕ
bound_of bounded_strong bound = bound
bound_of unbounded_strong bound = 0
bound_of weak bound = 0

abbrev pub announced : CounterConfiguration → CounterConfiguration
announced c = record c {
  lower_bound = bound_of c.type c.lower_bound;
  upper_bound = bound_of c.type c.upper_bound;
  concurrency_level = level_of c.type c.concurrency_level;
}

pub record IsFitting (c : CounterConfiguration) : Type 0 where
  pub initial_fits : IsU64 c.initial_value
  pub lower_fits : IsU64 c.lower_bound
  pub upper_fits : IsU64 c.upper_bound
  pub level_fits : IsU32 c.concurrency_level

read_level-bytes :
    (t : CounterType) (level : ℕ) (rest : List ℕ)
    → IsU32 level
    → read_level t (level_bytes t level ++ rest) ≡ got (level_of t level) rest
unfolding read_level
read_level-bytes weak level rest h = read_vint-write_vint level rest h
read_level-bytes bounded_strong level rest h = refl
read_level-bytes unbounded_strong level rest h = refl

read_bounds-bytes :
    (t : CounterType) (lower upper : ℕ) (rest : List ℕ)
    → IsU64 lower
    → IsU64 upper
    → read_bounds t (bounds_bytes t lower upper ++ rest)
      ≡ got (bound_of t lower, bound_of t upper) rest
unfolding read_bounds
read_bounds-bytes bounded_strong lower upper rest hl hu =
    ap (read_bounds bounded_strong) (append_assoc (write_long lower) (write_long upper) rest)
    ∙ >>=-got read_long (λ l. read_long >>= λ u. return (l, u)) _
        (read_long-write_long lower (write_long upper ++ rest) hl)
    ∙ >>=-got read_long (λ u. return (lower, u)) _ (read_long-write_long upper rest hu)
read_bounds-bytes unbounded_strong lower upper rest hl hu = refl
read_bounds-bytes weak lower upper rest hl hu = refl

-- What is read after the bounds.
abbrev initial_of : Storage → CounterType → ℕ → ℕ × ℕ → Reader (Outcome CounterConfiguration)
initial_of st t level bounds = read_long >>= λ initial. return (
    ok (record {
      initial_value = initial;
      lower_bound = bounds.0;
      upper_bound = bounds.1;
      concurrency_level = level;
      type = t;
      storage = st;
    }))

read_typed-bytes :
    (c : CounterConfiguration) (rest : List ℕ)
    → IsFitting c
    → read_typed c.storage (ok c.type) (
        level_bytes c.type c.concurrency_level
        ++ (bounds_bytes c.type c.lower_bound c.upper_bound
            ++ (write_long c.initial_value ++ rest)))
      ≡ got (ok (announced c)) rest
unfolding read_typed
read_typed-bytes c rest h =
    let level = level_of c.type c.concurrency_level in
    >>=-got (read_level c.type) (λ l. read_bounds c.type >>= initial_of c.storage c.type l) _
      (read_level-bytes c.type c.concurrency_level
        (bounds_bytes c.type c.lower_bound c.upper_bound ++ (write_long c.initial_value ++ rest))
        h.level_fits)
    ∙ >>=-got (read_bounds c.type) (initial_of c.storage c.type level) _ (
        read_bounds-bytes c.type c.lower_bound c.upper_bound (write_long c.initial_value ++ rest)
          h.lower_fits h.upper_fits)
    ∙ >>=-got read_long _ _ (read_long-write_long c.initial_value rest h.initial_fits)

flags_back :
    (t : CounterType) (st : Storage)
    → (type_of (storage_flags st (type_flags t)) ≡ ok t)
      × (storage_of (storage_flags st (type_flags t)) ≡ st)
unfolding type_of storage_of
flags_back unbounded_strong volatile = (refl, refl)
flags_back unbounded_strong persistent = (refl, refl)
flags_back bounded_strong volatile = (refl, refl)
flags_back bounded_strong persistent = (refl, refl)
flags_back weak volatile = (refl, refl)
flags_back weak persistent = (refl, refl)

-- A configuration whose values fit their widths is read back as it was written, but for the fields
-- that its type has no use for, which are zero: the bounds of a counter without bounds, and the
-- concurrency level of a strong one. What follows is left.
pub read_configuration-write_configuration :
    (c : CounterConfiguration) (rest : List ℕ)
    → IsFitting c
    → read_configuration (write_configuration c ++ rest) ≡ got (ok (announced c)) rest
unfolding read_configuration write_configuration read_byte
read_configuration-write_configuration c rest h =
    let flags = storage_flags c.storage (type_flags c.type) in
    let level = level_bytes c.type c.concurrency_level in
    let bounds = bounds_bytes c.type c.lower_bound c.upper_bound in
    let tail = write_long c.initial_value in
    let split : (level ++ (bounds ++ tail)) ++ rest ≡ level ++ (bounds ++ (tail ++ rest)) =
      append_assoc level (bounds ++ tail) rest
      ∙ ap (λ t. level ++ t) (append_assoc bounds tail rest) in
    ap (read_typed (storage_of flags) (type_of flags)) split
    ∙ ap (λ o. read_typed (storage_of flags) o (level ++ (bounds ++ (tail ++ rest))))
        (flags_back c.type c.storage).0
    ∙ ap (λ st. read_typed st (ok c.type) (level ++ (bounds ++ (tail ++ rest))))
        (flags_back c.type c.storage).1
    ∙ read_typed-bytes c rest h
