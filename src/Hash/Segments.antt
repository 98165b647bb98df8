-- ===== src/Hash/Segments.antt =====
-- impl/consistenthash/SegmentConsistentHash.h and .cpp: the segment of a key and its owners.
use cpp_client.Prelude.{
  ℕ, ◌+◌, ◌/◌, bit_and, List, [], ◌∷◌, ◌++◌, get_elem?, none, some, ◌==◌, if◌then◌else◌,
}
use cpp_client.Prelude.Words.{u32}
use cpp_client.Prelude.Maps.{lookup, insert}
use cpp_client.Address.{Address, address_key}
use cpp_client.Exceptions.{Outcome, ok, throws, fault}
use cpp_client.Hash.Murmur.{hash}
use cpp_client.Hash.IntKey.{hash_int}

pub record SegmentConsistentHash : Type 0 where
  pub segment_owners : List (List Address)
  pub num_segments : ℕ
  pub segment_size : ℕ

-- `(uint32_t)(0x7FFFFFFFUL/num)+1`; a division by zero is undefined.
unfoldable pub get_segment_size : ℕ → Outcome ℕ
get_segment_size num = if num == 0 then fault else ok (u32 (u32 (0x7FFF_FFFF / num) + 1))

-- `init` on a new object.
unfoldable pub init : List (List Address) → ℕ → Outcome SegmentConsistentHash
unfolding get_segment_size
init owners num = elim (get_segment_size num) [
  | ok size ↦ ok (record { segment_owners = owners; num_segments = num; segment_size = size })
  | throws e ↦ throws e
  | fault ↦ fault
]

unfoldable pub get_normalized_hash : List ℕ → ℕ
get_normalized_hash key = bit_and (hash key) 0x7fff_ffff

unfoldable pub get_normalized_hash_int : ℕ → ℕ
get_normalized_hash_int key = bit_and (hash_int key) 0x7fff_ffff

unfoldable pub get_segment : SegmentConsistentHash → List ℕ → Outcome ℕ
get_segment h key =
    if h.segment_size == 0 then fault else ok (get_normalized_hash key / h.segment_size)

-- `segmentOwners[segmentId][0]`, undefined past the end.
unfoldable pub first_owner : List (List Address) → ℕ → Outcome Address
first_owner owners i = elim (get_elem? owners i) [
  | none ↦ fault
  | some [] ↦ fault
  | some (a ∷ row) ↦ ok a
]

unfoldable pub get_server : SegmentConsistentHash → List ℕ → Outcome Address
unfolding get_segment first_owner
get_server h key = elim (get_segment h key) [
  | ok i ↦ first_owner h.segment_owners i
  | throws e ↦ throws e
  | fault ↦ fault
]

abbrev pub SegmentMap : Type 0
SegmentMap = List (Address × List ℕ)

-- `m[server]`, which makes an empty vector for a key that is not there.
abbrev pub segments_of : Address → SegmentMap → List ℕ
segments_of a m = elim (lookup a m) [ none ↦ [] | some is ↦ is ]

-- The inner loop, over the owners of segment `i`, and the outer one, from segment `i` on.
unfoldable pub add_owners : ℕ → List Address → SegmentMap → SegmentMap
add_owners i [] m = m
add_owners i (a ∷ row) m = add_owners i row (insert a (segments_of a m ++ (i ∷ [])) m)

unfoldable pub add_segments : ℕ → List (List Address) → SegmentMap → SegmentMap
unfolding add_owners
add_segments i [] m = m
add_segments i (row ∷ rows) m = add_segments (i + 1) rows (add_owners i row m)

unfoldable pub get_segments_by_servers : SegmentConsistentHash → SegmentMap
unfolding add_segments
get_segments_by_servers h = add_segments 0 h.segment_owners []
