-- ===== src/Hash/Routing.antt =====
-- Routing by segments: the index of a key's segment, its server, and the segments of each server.
use native.Mathlib.Nat.{lt-mul-div-succ, div-lt_iff_lt-mul, div-le_self}
use cpp_client.Prelude.{
  ℕ, zero, suc, ◌+◌, ◌*◌, ◌/◌, ◌^◌, ◌<◌, ◌≤◌, ◌≡◌, refl, ◌∙◌, List, [], ◌∷◌, ◌++◌, append_assoc,
  append-nil, length, get_elem?, some, arith, if◌then◌else◌,
}
use cpp_client.Prelude.Bits.{bit_and_low}
use cpp_client.Prelude.Maps.{lookup, insert, lookup-insert}
use cpp_client.Address.{Address, address_key, address_same, address_same_iff}
use cpp_client.Exceptions.{ok}
use cpp_client.Hash.Murmur.{hash}
use cpp_client.Hash.Segments.{
  SegmentConsistentHash, init, get_normalized_hash, get_segment, first_owner, get_server,
  SegmentMap, segments_of, add_owners, add_segments, get_segments_by_servers,
}

get_normalized_hash-lt : (key : List ℕ) → get_normalized_hash key < 2 ^ 31
unfolding get_normalized_hash
get_normalized_hash-lt key = omega (arith, bit_and_low 31 (hash key))

-- Dividing the 31-bit range into `num` segments of this size leaves nothing over.
segment_in_range : (h num : ℕ) → 0 < num → h ≤ 0x7FFF_FFFF → h / (0x7FFF_FFFF / num + 1) < num
segment_in_range h num pos le =
    let covers : 0x7FFF_FFFF < num * (0x7FFF_FFFF / num + 1) = lt-mul-div-succ 0x7FFF_FFFF pos in
    (div-lt_iff_lt-mul (omega arith)).1 (omega arith)

-- Every segment has an owner.
abbrev pub Owned : List (List Address) → Type 0
Owned [] = Unit {0}
Owned (row ∷ rows) = (0 < length row) × Owned rows

first_owner-in_range :
    (owners : List (List Address)) (i : ℕ)
    → Owned owners
    → i < length owners
    → (a : Address) × (row : List Address) × (get_elem? owners i ≡ some (a ∷ row))
      × (first_owner owners i ≡ ok a)
unfolding first_owner
first_owner-in_range [] i o h = elim h [ ]
first_owner-in_range ([] ∷ rows) i o h = absurd (omega arith)
first_owner-in_range ((a ∷ row) ∷ rows) zero o h = (a, row, refl, refl)
first_owner-in_range ((a ∷ row) ∷ rows) (suc i) o h = first_owner-in_range rows i o.1 (omega arith)

abbrev routed : List (List Address) → ℕ → SegmentConsistentHash
routed owners num = record {
  segment_owners = owners;
  num_segments = num;
  segment_size = 0x7FFF_FFFF / num + 1;
}

pub init-routed :
    (owners : List (List Address)) (num : ℕ) → 0 < num → init owners num ≡ ok (routed owners num)
unfolding init
init-routed owners num pos =
    let small : 0x7FFF_FFFF / num ≤ 0x7FFF_FFFF = div-le_self 0x7FFF_FFFF num in ground arith

get_segment-routed :
    (owners : List (List Address)) (num : ℕ) (key : List ℕ)
    → get_segment (routed owners num) key ≡ ok (get_normalized_hash key / (0x7FFF_FFFF / num + 1))
unfolding get_segment
get_segment-routed owners num key = ground arith

get_server-routed :
    (owners : List (List Address)) (num : ℕ) (key : List ℕ)
    → get_server (routed owners num) key
      ≡ first_owner owners (get_normalized_hash key / (0x7FFF_FFFF / num + 1))
unfolding get_server
get_server-routed owners num key = rw (get_segment-routed owners num key, get_server)

-- On a positive number of segments that is the number of rows of owners, none of them empty, the
-- hash is set up, every key falls in a segment below that number, and its server is the first owner of
-- that segment: nothing is divided by zero and no index is out of range.
pub get_server-init :
    (owners : List (List Address)) (num : ℕ) (key : List ℕ)
    → 0 < num
    → length owners ≡ num
    → Owned owners
    → (h : SegmentConsistentHash) × (i : ℕ) × (a : Address) × (row : List Address) × (init owners
          num
        ≡ ok h)
      × (get_segment h key ≡ ok i)
      × (i < num)
      × (get_elem? owners i ≡ some (a ∷ row))
      × (get_server h key ≡ ok a)
get_server-init owners num key pos rows owned =
    let i = get_normalized_hash key / (0x7FFF_FFFF / num + 1) in
    let inside : i < num =
      segment_in_range (get_normalized_hash key) num pos
        (omega (arith, get_normalized_hash-lt key)) in
    let (a, row, at_i, first) = first_owner-in_range owners i owned (omega arith) in
    (
      routed owners num,
      i,
      a,
      row,
      init-routed owners num pos,
      get_segment-routed owners num key,
      inside,
      at_i,
      get_server-routed owners num key ∙ first,
    )

-- The segments in which a server stands in the rows from segment `i` on, once for each time.
abbrev pub occurrences : ℕ → Address → List Address → List ℕ
occurrences i a [] = []
occurrences i a (b ∷ row) =
    if address_same b a then i ∷ occurrences i a row else occurrences i a row

abbrev pub owned_segments : ℕ → Address → List (List Address) → List ℕ
owned_segments i a [] = []
owned_segments i a (row ∷ rows) = occurrences i a row ++ owned_segments (i + 1) a rows

segments_of-insert :
    (i : ℕ) (b a : Address) (m : SegmentMap)
    → segments_of a (insert b (segments_of b m ++ (i ∷ [])) m)
      ≡ (if address_same b a then segments_of a m ++ (i ∷ []) else segments_of a m)
segments_of-insert i b a m =
    ground (arith, lookup-insert b a (segments_of b m ++ (i ∷ [])) m, address_same_iff b a)

segments_of-add_owners :
    (i : ℕ) (row : List Address) (m : SegmentMap) (a : Address)
    → segments_of a (add_owners i row m) ≡ segments_of a m ++ occurrences i a row
unfolding add_owners
segments_of-add_owners i [] m a = rw append-nil
segments_of-add_owners i (b ∷ row) m a =
    segments_of-add_owners i row _ a
    ∙ rw (segments_of-insert i b a m)
        (ground (arith, append_assoc (segments_of a m) (i ∷ []) (occurrences i a row)))

segments_of-add_segments :
    (i : ℕ) (rows : List (List Address)) (m : SegmentMap) (a : Address)
    → segments_of a (add_segments i rows m) ≡ segments_of a m ++ owned_segments i a rows
unfolding add_segments
segments_of-add_segments i [] m a = rw append-nil
segments_of-add_segments i (row ∷ rows) m a =
    segments_of-add_segments (i + 1) rows (add_owners i row m) a
    ∙ simp (segments_of-add_owners, append_assoc)

-- The map of segments by servers lists for every server the segments in whose owners it stands, in
-- ascending order, and nothing for any other server.
pub segments_of-get_segments_by_servers :
    (h : SegmentConsistentHash) (a : Address)
    → segments_of a (get_segments_by_servers h) ≡ owned_segments 0 a h.segment_owners
unfolding get_segments_by_servers lookup
segments_of-get_segments_by_servers h a = segments_of-add_segments 0 h.segment_owners [] a
