-- ===== src/Tests/Hash.antt =====
-- The values that the test program of the hash expects, and routing over two servers; the rotation
-- of the balancer over the same.
use cpp_client.Prelude.Words.{sign_extend8}
use cpp_client.Prelude.{
  ℕ, ◌<◌, ◌≡◌, refl, ◌⊎◌, Bool, false, List, [], ◌∷◌, length, some, get_elem?, arith,
}
use cpp_client.Address.{Address, address_key}
use cpp_client.Exceptions.{ok, throws, client}
use cpp_client.Hash.Murmur.{rotl64, hash}
use cpp_client.Hash.IntKey.{hash_int, int_bytes}
use cpp_client.Hash.IntHash.{hash_int-hash}
use cpp_client.Hash.Segments.{
  SegmentConsistentHash, init, get_segment, get_server, segments_of, get_segments_by_servers,
}
use cpp_client.Hash.Routing.{get_server-init, segments_of-get_segments_by_servers, owned_segments}
use cpp_client.Balancer.{Balancer, next_server}
use cpp_client.Balancer.RoundRobin.{Found, FailedAt, next_server-first_live}

hash_one_byte : hash (132 ∷ []) ≡ 0x7C96_8B75
unfolding hash rotl64 sign_extend8
hash_one_byte = refl

hash_two_bytes : hash (122 ∷ 82 ∷ []) ≡ 0x6634_9ADC
unfolding hash rotl64 sign_extend8
hash_two_bytes = refl

hash_three_bytes : hash (113 ∷ 16 ∷ 69 ∷ []) ≡ 0xC299_25E0
unfolding hash rotl64 sign_extend8
hash_three_bytes = refl

hash_an_int : hash_int 0x4438_3CA7 ≡ 0xF216_CF1A
unfolding hash_int rotl64 sign_extend8
hash_an_int = refl

hash_another_int : hash_int 0x2F54_9378 ≡ 0x44A2_1DD5
unfolding hash_int rotl64 sign_extend8
hash_another_int = refl

hash_int-hash_example : hash_int 0x4438_3CA7 ≡ hash (int_bytes 0x4438_3CA7)
hash_int-hash_example = hash_int-hash 0x4438_3CA7

abbrev a : Address
a = record { hostname = 97 ∷ []; port = 11222 }

abbrev b : Address
b = record { hostname = 98 ∷ []; port = 11222 }

abbrev owners : List (List Address)
owners = (a ∷ b ∷ []) ∷ (b ∷ []) ∷ []

get_server-init_example :
    (h : SegmentConsistentHash) × (i : ℕ) × (c : Address) × (row : List Address) × (init owners 2
      ≡ ok h)
    × (get_segment h (132 ∷ []) ≡ ok i)
    × (i < 2)
    × (get_elem? owners i ≡ some (c ∷ row))
    × (get_server h (132 ∷ []) ≡ ok c)
get_server-init_example =
    get_server-init owners 2 (132 ∷ []) (omega arith) refl (omega arith, (omega arith, tt))

abbrev two_segments : SegmentConsistentHash
two_segments = record { segment_owners = owners; num_segments = 2; segment_size = 0x4000_0000 }

segments_of-get_segments_by_servers_example :
    segments_of b (get_segments_by_servers two_segments) ≡ owned_segments 0 b owners
segments_of-get_segments_by_servers_example = segments_of-get_segments_by_servers two_segments b

abbrev two_servers : Balancer
two_servers = record { servers = a ∷ b ∷ []; index = 1 }

abbrev none_failed : Address → Bool
none_failed _ = false

next_server-first_live_example :
    Found none_failed two_servers (length two_servers.servers) (next_server none_failed two_servers)
    ⊎ (((next_server none_failed two_servers).0 ≡ throws client)
        × ((next_server none_failed two_servers).1.servers ≡ two_servers.servers)
        × ((p : ℕ) → p < length two_servers.servers → FailedAt none_failed two_servers p))
next_server-first_live_example = next_server-first_live none_failed two_servers (omega arith)
