-- ===== src/Protocol/Layout.antt =====
-- The layout of a topology on the wire, as the protocol describes it, and that the client reads it.
use cpp_client.Prelude.{
  get_elem?-lt, ℕ, suc, ◌/◌, ◌%◌, ◌^◌, ◌<◌, ◌≡◌, refl, ap, ◌∙◌, List, [], ◌∷◌, ◌++◌, length,
  get_elem?, none, some, arith,
}
use cpp_client.Prelude.Words.{IsU32, sign_extend16, u16-sign_extend16}
use cpp_client.Address.{Address, new_address}
use cpp_client.Wire.Stream.{got, >>=-got}
use cpp_client.Wire.Read.{read_byte, read_vint, read_array, read_unsigned_short, read_bytes}
use cpp_client.Wire.Write.{write_vint, write_array}
use cpp_client.Wire.VarInt.{read_vint-write_vint}
use cpp_client.Wire.Arrays.{read_array-write_array}
use cpp_client.Wire.Fixed.{short_of-two_bytes}
use cpp_client.Protocol.Topology.{
  read_addresses, member, read_owners, read_segments, read_segments_if, read_new_topology_and_hash,
}

-- Each part of the layout, with what follows it.
abbrev pub addresses_bytes : List Address → List ℕ → List ℕ
addresses_bytes [] rest = rest
addresses_bytes (a ∷ more) rest =
    write_array a.hostname ++ (a.port / 256 ∷ a.port % 256 ∷ addresses_bytes more rest)

abbrev pub owners_bytes : List ℕ → List ℕ → List ℕ
owners_bytes [] rest = rest
owners_bytes (i ∷ more) rest = write_vint i ++ owners_bytes more rest

abbrev pub segments_bytes : List (List ℕ) → List ℕ → List ℕ
segments_bytes [] rest = rest
segments_bytes (row ∷ more) rest = length row ∷ owners_bytes row (segments_bytes more rest)

-- A topology id, the servers, the version of the hash function, and for each segment the places of
-- its owners among the servers.
abbrev pub topology_bytes : ℕ → List Address → ℕ → List (List ℕ) → List ℕ → List ℕ
topology_bytes id as' version rows rest =
    write_vint id
    ++ (write_vint (length as')
        ++ addresses_bytes as' (version ∷ (write_vint (length rows) ++ segments_bytes rows rest)))

-- A host name shorter than 2^32 and a port of 16 bits.
abbrev pub Sendable : List Address → Type 0
Sendable [] = Unit {0}
Sendable (a ∷ rest) = (length a.hostname < 2 ^ 32) × (a.port < 2 ^ 16) × Sendable rest

read_port :
    (port : ℕ) (rest : List ℕ)
    → port < 2 ^ 16
    → read_unsigned_short (port / 256 ∷ port % 256 ∷ rest) ≡ got port rest
unfolding read_unsigned_short read_bytes
read_port port rest h =
    ap (λ (t : ℕ). got t rest)
      (short_of-two_bytes (port / 256) (port % 256) (omega arith) (omega arith) ∙ omega arith)

new_address-port :
    (a : Address) → a.port < 2 ^ 16 → new_address a.hostname (sign_extend16 a.port) ≡ a
unfolding new_address
new_address-port a h = rw (u16-sign_extend16 a.port h) refl

read_addresses-bytes :
    (as' : List Address) (rest : List ℕ)
    → Sendable as'
    → read_addresses (length as') (addresses_bytes as' rest) ≡ got as' rest
unfolding read_addresses
read_addresses-bytes [] rest h = refl
read_addresses-bytes (a ∷ more) rest (host, port, later) =
    >>=-got read_array _ _ (read_array-write_array a.hostname _ host)
    ∙ >>=-got read_unsigned_short _ _ (read_port a.port (addresses_bytes more rest) port)
    ∙ >>=-got (read_addresses (length more)) _ _ (read_addresses-bytes more rest later)
    ∙ ap (λ (b : Address). got (b ∷ more) rest) (new_address-port a port)

-- The owners that places stand for.
abbrev pub owners_at : List Address → List ℕ → List Address
owners_at as' [] = []
owners_at as' (i ∷ more) = elim (get_elem? as' i) [
  | none ↦ owners_at as' more
  | some a ↦ a ∷ owners_at as' more
]

abbrev pub rows_at : List Address → List (List ℕ) → List (List Address)
rows_at as' [] = []
rows_at as' (row ∷ more) = owners_at as' row ∷ rows_at as' more

-- Places that are in range, at most 255 in a row.
abbrev pub InRange : ℕ → List ℕ → Type 0
InRange n [] = Unit {0}
InRange n (i ∷ more) = (i < n) × InRange n more

abbrev pub Rows : ℕ → List (List ℕ) → Type 0
Rows n [] = Unit {0}
Rows n (row ∷ more) = (length row < 2 ^ 8) × InRange n row × Rows n more

read_owners-bytes :
    (as' : List Address) (row rest : List ℕ)
    → length as' < 2 ^ 32
    → InRange (length as') row
    → read_owners as' (length row) (owners_bytes row rest) ≡ got (owners_at as' row) rest
unfolding read_owners member
read_owners-bytes as' [] rest small h = refl
read_owners-bytes as' (i ∷ more) rest small (h, later) =
    let (a, e) = get_elem?-lt as' i h in
    >>=-got read_vint _ _ (read_vint-write_vint i (owners_bytes more rest) (omega arith))
    ∙ >>=-got (member as' i) _ (owners_bytes more rest) {a = a} {rest = owners_bytes more rest}
        (rw (e, member) refl)
    ∙ >>=-got (read_owners as' (length more)) _ _ (read_owners-bytes as' more rest small later)
    ∙ rw (e, owners_at) refl

read_segments-bytes :
    (as' : List Address) (rows : List (List ℕ)) (rest : List ℕ)
    → length as' < 2 ^ 32
    → Rows (length as') rows
    → read_segments as' (length rows) (segments_bytes rows rest) ≡ got (rows_at as' rows) rest
unfolding read_segments read_byte
read_segments-bytes as' [] rest small h = refl
read_segments-bytes as' (row ∷ more) rest small (_, h, later) =
    >>=-got (read_owners as' (length row)) _ _
      (read_owners-bytes as' row (segments_bytes more rest) small h)
    ∙ >>=-got (read_segments as' (length more)) _ _ (read_segments-bytes as' more rest small later)

-- The topology of this layout, with a version of the hash function that is not 0, is read in full:
-- the servers in their order, for each segment the servers at the places it names, and what follows
-- is left. The id and the lengths fit in 32 bits, the ports in 16, and the places are in range.
pub read_new_topology_and_hash-topology_bytes :
    (id : ℕ) (as' : List Address) (version : ℕ) (rows : List (List ℕ)) (rest : List ℕ)
    → IsU32 id
    → length as' < 2 ^ 32
    → Sendable as'
    → length rows < 2 ^ 32
    → Rows (length as') rows
    → read_new_topology_and_hash (topology_bytes id as' (suc version) rows rest)
      ≡ got
          (record {
            new_topology_id = id;
            addresses = as';
            hash_function_version = suc version;
            num_segments = length rows;
            segment_owners = rows_at as' rows;
          })
          rest
unfolding read_new_topology_and_hash read_byte read_segments_if
read_new_topology_and_hash-topology_bytes id as' version rows rest hid hlen send hrows range =
    >>=-got read_vint _ _ (read_vint-write_vint id _ hid)
    ∙ >>=-got read_vint _ _ (read_vint-write_vint (length as') _ hlen)
    ∙ >>=-got (read_addresses (length as')) _ _ (read_addresses-bytes as' _ send)
    ∙ >>=-got read_vint _ _ (read_vint-write_vint (length rows) _ hrows)
    ∙ >>=-got (read_segments as' (length rows)) _ _ (read_segments-bytes as' rows rest hlen range)
