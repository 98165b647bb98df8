-- ===== src/Transactions/Verdict.antt =====
-- What remoteCommit and remoteRollback make of the answers of all caches.
use cpp_client.Prelude.{
  ℕ, ◌≡◌, refl, ◌∙◌, ap, Bool, true, false, not, ◌||◌, List, [], ◌∷◌, ◌==◌, if◌then◌else◌, arith,
}
use cpp_client.Exceptions.{Outcome, ok, throws, tx_remote_state}
use cpp_client.Transactions.Context.{TransactionContext}
use cpp_client.Transactions.Remote.{
  Xid, Caches, Tally, no_answers, count_commit, judge_commit, committed, remote_commit, xa_ok,
  xa_rdonly, xa_heurcom, xaer_nota, xa_heurmix, xa_heurhaz, xa_heurrb,
}

abbrev pub any : (ℕ → Bool) → List ℕ → Bool
any p [] = false
any p (a ∷ rest) = p a || any p rest

-- What an answer to a commit says of its cache.
abbrev pub says_committed : ℕ → Bool
says_committed a =
    (a == xa_ok)
    || ((a == xa_rdonly) || ((a == xa_heurcom) || ((a == xa_heurmix) || (a == xa_heurhaz))))

abbrev pub says_rolled_back : ℕ → Bool
says_rolled_back a = (a == xa_heurmix) || ((a == xa_heurhaz) || (a == xa_heurrb))

abbrev pub says_forgotten : ℕ → Bool
says_forgotten a = a == xaer_nota

abbrev pub says_else : ℕ → Bool
says_else a = not (says_committed a || (says_rolled_back a || says_forgotten a))

abbrev pub last_else : ℕ → List ℕ → ℕ
last_else code [] = code
last_else code (a ∷ rest) = last_else (if says_else a then a else code) rest

-- The verdict on all answers.
abbrev pub verdict : List ℕ → Outcome (Unit {0})
verdict answers =
    if any says_committed answers
    then (if any says_rolled_back answers then throws (tx_remote_state xa_heurmix) else ok tt)
    else if any says_rolled_back answers
    then throws (tx_remote_state xa_heurrb)
    else if any says_forgotten answers
    then throws (tx_remote_state xaer_nota)
    else if any says_else answers
    then throws (tx_remote_state (last_else 0 answers))
    else ok tt

tally_of : Tally → List ℕ → Tally
tally_of t [] = t
tally_of t (a ∷ rest) = tally_of (count_commit t a) rest

same_tally :
    (t u : Tally)
    → t.has_commit ≡ u.has_commit
    → t.has_rollback ≡ u.has_rollback
    → t.already_forgot ≡ u.already_forgot
    → t.unknown ≡ u.unknown
    → t.unknown_error_code ≡ u.unknown_error_code
    → t ≡ u
same_tally t u c r f o n = λ i. record {
  has_commit = c i;
  has_rollback = r i;
  already_forgot = f i;
  unknown = o i;
  unknown_error_code = n i;
}

-- One answer, as what it says.
abbrev said : Tally → ℕ → Tally
said t a = record {
  has_commit = t.has_commit || says_committed a;
  has_rollback = t.has_rollback || says_rolled_back a;
  already_forgot = t.already_forgot || says_forgotten a;
  unknown = t.unknown || says_else a;
  unknown_error_code = if says_else a then a else t.unknown_error_code;
}

count_commit-said : (t : Tally) (a : ℕ) → count_commit t a ≡ said t a
unfolding count_commit
count_commit-said t a =
    same_tally (count_commit t a) (said t a) (ground arith) (ground arith) (ground arith)
      (ground arith) (ground arith)

abbrev all_said : Tally → List ℕ → Tally
all_said t answers = record {
  has_commit = t.has_commit || any says_committed answers;
  has_rollback = t.has_rollback || any says_rolled_back answers;
  already_forgot = t.already_forgot || any says_forgotten answers;
  unknown = t.unknown || any says_else answers;
  unknown_error_code = last_else t.unknown_error_code answers;
}

or_false : (b : Bool) → b ≡ b || false
or_false false = refl
or_false true = refl

or_assoc : (a b c : Bool) → (a || b) || c ≡ a || (b || c)
or_assoc false b c = refl
or_assoc true b c = refl

tally_of-all_said : (t : Tally) (answers : List ℕ) → tally_of t answers ≡ all_said t answers
unfolding tally_of
tally_of-all_said t [] =
    same_tally t (all_said t []) (or_false _) (or_false _) (or_false _) (or_false _) refl
tally_of-all_said t (a ∷ rest) =
    ap (λ (u : Tally). tally_of u rest) (count_commit-said t a)
    ∙ tally_of-all_said (said t a) rest
    ∙ same_tally (all_said (said t a) rest) (all_said t (a ∷ rest)) (or_assoc t.has_commit _ _)
        (or_assoc t.has_rollback _ _) (or_assoc t.already_forgot _ _) (or_assoc t.unknown _ _) refl

judge_commit-verdict :
    (answers : List ℕ) → judge_commit (tally_of no_answers answers) ≡ verdict answers
unfolding judge_commit
judge_commit-verdict answers = rw (tally_of-all_said no_answers answers) (ground arith)

module _ (r : Caches) (xid : Xid) where
  -- The caches, asked in turn to commit, give these answers.
  pub data Answers : List (ℕ × TransactionContext) → r.World → List ℕ → r.World → Type 0 where
    no_more : {w : r.World} → Answers [] w [] w
    answered :
        {rest : List (ℕ × TransactionContext)} {w w' w'' : r.World} {later : List ℕ} (c : ℕ)
        (ctx : TransactionContext) (ret : ℕ)
        → r.commit c xid ctx w ≡ (ok ret, w')
        → Answers rest w' later w''
        → Answers ((c, ctx) ∷ rest) w (ret ∷ later) w''

  remote_commit-tally :
      {registered : List (ℕ × TransactionContext)} {w w' : r.World} {given : List ℕ} (t : Tally)
      → Answers registered w given w'
      → remote_commit r xid registered t w ≡ (judge_commit (tally_of t given), w')
  unfolding remote_commit tally_of
  remote_commit-tally t no_more = refl
  remote_commit-tally t (answered c ctx ret e rest) =
      rw (e, committed) (remote_commit-tally (count_commit t ret) rest)

  -- When no call to a cache throws, remoteCommit comes to the verdict on all the answers: it is
  -- well when some cache committed and none rolled back, or when there was no cache to ask;
  -- otherwise it throws HEURMIX when some committed and some rolled back, HEURRB when some rolled
  -- back only, NOTA when some had forgotten the transaction, and else the last of the unknown
  -- codes.
  pub remote_commit-verdict :
      {registered : List (ℕ × TransactionContext)} {w w' : r.World} {given : List ℕ}
      → Answers registered w given w'
      → remote_commit r xid registered no_answers w ≡ (verdict given, w')
  remote_commit-verdict {w' = w'} {given = given} a =
      remote_commit-tally no_answers a
      ∙ ap (λ (v : Outcome (Unit {0})). (v, w')) (judge_commit-verdict given)
