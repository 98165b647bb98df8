-- ===== src/Transactions/Context.antt =====
-- TransactionContext (include/infinispan/hotrod/Transactions.h, api/TransactionManager.cpp): what a
-- transaction has read and written of one cache. A value is a pointer, here a number, null as `none`;
-- the deleter of an entry runs on its pointer, which is then in the list of freed ones.
use cpp_client.Prelude.{
  ℕ, ◌+◌, Bool, true, false, List, [], ◌∷◌, length, Option, none, some, bit_or, if◌then◌else◌,
}
use cpp_client.Prelude.Words.{u64}
use cpp_client.Prelude.Maps.{lookup, contains, insert, erase, bytes_key}

pub data Action : Type 0 where
  set : Action
  deleted : Action

pub record MetadataValue : Type 0 where
  pub version : ℕ
  pub created : ℕ
  pub lifespan : ℕ
  pub last_used : ℕ
  pub max_idle : ℕ

-- `MetadataValue()`: version 0, and -1 in the four times.
abbrev pub no_metadata : MetadataValue
no_metadata = record {
  version = 0;
  created = 0xFFFF_FFFF_FFFF_FFFF;
  lifespan = 0xFFFF_FFFF;
  last_used = 0xFFFF_FFFF_FFFF_FFFF;
  max_idle = 0xFFFF_FFFF;
}

pub record ContextEntry : Type 0 where
  pub action : Action
  pub value : Option ℕ
  pub orig_meta : MetadataValue
  pub meta : MetadataValue
  pub changed : Bool
  pub has_deleter : Bool
  pub control_byte : ℕ

abbrev pub new_entry : ContextEntry
new_entry = record {
  action = set;
  value = none;
  orig_meta = no_metadata;
  meta = no_metadata;
  changed = false;
  has_deleter = false;
  control_byte = 0;
}

-- The context, with the pointers that deleters have freed.
pub record TransactionContext : Type 0 where
  pub context : List (List ℕ × ContextEntry)
  pub freed : List ℕ

abbrev pub new_context : TransactionContext
new_context = record { context = []; freed = [] }

-- `context[key]`, the entry of the key or a new one.
unfoldable pub entry_at : List ℕ → TransactionContext → ContextEntry
entry_at k c = elim (lookup k c.context) [ none ↦ new_entry | some e ↦ e ]

-- `if (ce.value && ce.deleter) ce.deleter(ce.value);`
unfoldable pub free : ContextEntry → List ℕ → List ℕ
free e freed = elim e.value [ none ↦ freed | some p ↦ if e.has_deleter then p ∷ freed else freed ]

unfoldable pub has_value : List ℕ → TransactionContext → Bool
has_value k c = contains k c.context

unfoldable pub is_deleted : List ℕ → TransactionContext → Bool
is_deleted k c = elim (lookup k c.context) [
  | none ↦ false
  | some e ↦ elim e.action [ set ↦ false | deleted ↦ true ]
]

-- getValue leaves an entry for the key.
unfoldable pub get_value : List ℕ → TransactionContext → Option ℕ × TransactionContext
unfolding entry_at
get_value k c =
    let e = entry_at k c in
    (
      elim e.action [ set ↦ e.value | deleted ↦ none ],
      record c { context = if contains k c.context then c.context else insert k e c.context },
    )

unfoldable pub set_value :
    List ℕ → Option ℕ → MetadataValue → Bool → TransactionContext → TransactionContext
unfolding entry_at free
set_value k p meta deleter c =
    let e = entry_at k c in
    let e' = record e {
      action = set;
      meta = record meta { version = u64 (e.orig_meta.version + 1) };
      changed = true;
      has_deleter = deleter;
      value = p;
    } in
    record { context = insert k e' c.context; freed = free e c.freed }

-- The entry that was there is overwritten, its value not freed.
unfoldable pub add_value :
    List ℕ → Option ℕ → MetadataValue → Bool → ℕ → TransactionContext → TransactionContext
add_value k p meta deleter bits c =
    let e : ContextEntry = record {
      action = set;
      value = p;
      orig_meta = meta;
      meta = meta;
      changed = false;
      has_deleter = deleter;
      control_byte = bit_or 0 bits;
    } in
    record c { context = insert k e c.context }

unfoldable pub set_value_as_deleted : List ℕ → TransactionContext → TransactionContext
unfolding entry_at free
set_value_as_deleted k c =
    let e = entry_at k c in
    let e' = record e {
      action = deleted;
      meta = record no_metadata { version = u64 (e.orig_meta.version + 1) };
      changed = true;
      value = none;
      has_deleter = false;
    } in
    record { context = insert k e' c.context; freed = free e c.freed }

-- getBulk, over the entries in their order; the size that is asked for is not looked at.
unfoldable pub bulk_of : List (List ℕ × ContextEntry) → List (List ℕ × ℕ) → List (List ℕ × ℕ)
bulk_of [] m = m
bulk_of ((k, e) ∷ rest) m =
    bulk_of rest
      (elim e.action [ deleted ↦ m | set ↦ elim e.value [ none ↦ m | some p ↦ insert k p m ] ])

unfoldable pub get_bulk : TransactionContext → List (List ℕ × ℕ) → List (List ℕ × ℕ)
unfolding bulk_of
get_bulk c m = bulk_of c.context m

unfoldable pub remove_entry : List ℕ → TransactionContext → TransactionContext
unfolding entry_at free
remove_entry k c = record { context = erase k c.context; freed = free (entry_at k c) c.freed }

unfoldable pub free_all : List (List ℕ × ContextEntry) → List ℕ → List ℕ
unfolding free
free_all [] freed = freed
free_all ((k, e) ∷ rest) freed = free_all rest (free e freed)

unfoldable pub clear : TransactionContext → TransactionContext
unfolding free_all
clear c = record { context = []; freed = free_all c.context c.freed }

unfoldable pub size : TransactionContext → ℕ
size c = length c.context
