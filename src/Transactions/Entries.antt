-- ===== src/Transactions/Entries.antt =====
-- What a transaction reads back from its context of one cache.
use cpp_client.Prelude.{
  ◌∙◌, ap, ℕ, ◌≡◌, refl, Bool, true, false, List, Option, none, if◌then◌else◌, arith,
}
use cpp_client.Prelude.Maps.{insert, erase, bytes_key, bytes_same, lookup-insert, lookup-erase}
use cpp_client.Transactions.Context.{
  set, deleted, MetadataValue, ContextEntry, TransactionContext, new_entry, entry_at, get_value,
  set_value, add_value, set_value_as_deleted, remove_entry,
}

-- What getValue answers for an entry.
abbrev pub seen : ContextEntry → Option ℕ
seen e = elim e.action [ set ↦ e.value | deleted ↦ none ]

get_value-seen : (k : List ℕ) (c : TransactionContext) → (get_value k c).0 ≡ seen (entry_at k c)
unfolding get_value
get_value-seen k c = refl

entry_at-insert :
    (k j : List ℕ) (e : ContextEntry) (c : TransactionContext) (freed : List ℕ)
    → entry_at j (record { context = insert k e c.context; freed = freed })
      ≡ (if bytes_same k j then e else entry_at j c)
unfolding entry_at
entry_at-insert k j e c freed = ground (arith, lookup-insert k j e c.context)

entry_at-erase :
    (k j : List ℕ) (c : TransactionContext) (freed : List ℕ)
    → entry_at j (record { context = erase k c.context; freed = freed })
      ≡ (if bytes_same k j then new_entry else entry_at j c)
unfolding entry_at
entry_at-erase k j c freed = ground (arith, lookup-erase k j c.context)

seen-if :
    (b : Bool) (e f : ContextEntry) → seen (if b then e else f) ≡ (if b then seen e else seen f)
seen-if false e f = refl
seen-if true e f = refl

pub get_value-insert :
    (k j : List ℕ) (e : ContextEntry) (c : TransactionContext) (freed : List ℕ)
    → (get_value j (record { context = insert k e c.context; freed = freed })).0
      ≡ (if bytes_same k j then seen e else (get_value j c).0)
unfolding get_value
get_value-insert k j e c freed =
    ap (λ (x : ContextEntry). seen x) (entry_at-insert k j e c freed)
    ∙ seen-if (bytes_same k j) e (entry_at j c)

get_value-erase :
    (k j : List ℕ) (c : TransactionContext) (freed : List ℕ)
    → (get_value j (record { context = erase k c.context; freed = freed })).0
      ≡ (if bytes_same k j then none else (get_value j c).0)
unfolding get_value
get_value-erase k j c freed =
    ap (λ (x : ContextEntry). seen x) (entry_at-erase k j c freed)
    ∙ seen-if (bytes_same k j) new_entry (entry_at j c)

-- After setValue, addValue, setValueAsDeleted or removeEntry of one key, getValue of any key gives
-- the value that was set, null for what was deleted or removed, and what it gave before for every
-- other key.
pub get_value-writes :
    (k j : List ℕ) (p : Option ℕ) (meta : MetadataValue) (d : Bool) (bits : ℕ)
    (c : TransactionContext)
    → ((get_value j (set_value k p meta d c)).0 ≡ (if bytes_same k j then p else (get_value j c).0))
      × ((get_value j (add_value k p meta d bits c)).0
          ≡ (if bytes_same k j then p else (get_value j c).0))
      × ((get_value j (set_value_as_deleted k c)).0
          ≡ (if bytes_same k j then none else (get_value j c).0))
      × ((get_value j (remove_entry k c)).0 ≡ (if bytes_same k j then none else (get_value j c).0))
unfolding set_value add_value set_value_as_deleted remove_entry
get_value-writes k j p meta d bits c = (
  get_value-insert k j _ c _,
  get_value-insert k j _ c _,
  get_value-insert k j _ c _,
  get_value-erase k j c _,
)
