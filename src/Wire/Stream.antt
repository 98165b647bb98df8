-- ===== src/Wire/Stream.antt =====
-- What a read of the input stream answers, and chains of reads.
use cpp_client.Prelude.{ℕ, List, ◌≡◌}

-- `ended` is the TransportException of a socket that has no more bytes (Socket.cpp throws it when
-- the peer closes or the time is out); `undefined` is a shift by more than the width.
pub data Read {ℓ} (A : Type ℓ) : Type ℓ where
  got : A → List ℕ → Read A
  ended : Read A
  undefined : Read A

abbrev pub Reader {ℓ} : Type ℓ → Type ℓ
Reader A = List ℕ → Read A

infixl 5 ◌>>=◌ ◌>>◌
abbrev pub ◌>>=◌ {ℓ κ} : {A : Type ℓ} {B : Type κ} → Reader A → (A → Reader B) → Reader B
◌>>=◌ m f input = elim (m input) [ got a rest ↦ f a rest | ended ↦ ended | undefined ↦ undefined ]

abbrev pub ◌>>◌ {ℓ κ} : {A : Type ℓ} {B : Type κ} → Reader A → Reader B → Reader B
m >> k = m >>= λ _. k

abbrev pub return {ℓ} : {A : Type ℓ} → A → Reader A
return a input = got a input

-- A chain goes on from what its first reader got.
pub >>=-got {ℓ κ} :
    {A : Type ℓ} {B : Type κ} (m : Reader A) (f : A → Reader B) (input : List ℕ) {a : A}
    {rest : List ℕ}
    → m input ≡ got a rest
    → (m >>= f) input ≡ f a rest
>>=-got m f input e = rw (e, ◌>>=◌)
