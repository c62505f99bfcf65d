-- ===== src/Tests/Blake.antt =====
-- BLAKE2b at concrete inputs. The digest of "abc" is the test vector of RFC 7693.
use crap_os.Base.{ℕ, ◌≡◌, ◌≤◌, ◌<◌, refl, Option, none, some, List, [], ◌∷◌, length, ◌⊎◌}
use crap_os.Blake.{
  update_each, finalize, last_block, le_bytes, all_bytes, update_loop, make_room, copy_from_slice,
  increment_counter, fold_back, rounds, round, words_of, g, compress, new_state, blake2b, hash,
}
use crap_os.Blake.Absorb.{hash-concat}
use crap_os.Blake.Lengths.{GoodKey, BadKey, blake2b-cases}
use crap_os.Tasks.Outcome.{done}

blake2b-abc :
    blake2b (97 ∷ 98 ∷ 99 ∷ []) 64 none
    ≡ done (
        some (
          0xba ∷ 0x80 ∷ 0xa5 ∷ 0x3f ∷ 0x98 ∷ 0x1c ∷ 0x4d ∷ 0x0d ∷ 0x6a ∷ 0x27 ∷ 0x97 ∷ 0xb6 ∷ 0x9f
          ∷ 0x12 ∷ 0xf6 ∷ 0xe9 ∷ 0x4c ∷ 0x21 ∷ 0x2f ∷ 0x14 ∷ 0x68 ∷ 0x5a ∷ 0xc4 ∷ 0xb7 ∷ 0x4b ∷ 0x12
          ∷ 0xbb ∷ 0x6f ∷ 0xdb ∷ 0xff ∷ 0xa2 ∷ 0xd1 ∷ 0x7d ∷ 0x87 ∷ 0xc5 ∷ 0x39 ∷ 0x2a ∷ 0xab ∷ 0x79
          ∷ 0x2d ∷ 0xc2 ∷ 0x52 ∷ 0xd5 ∷ 0xde ∷ 0x45 ∷ 0x33 ∷ 0xcc ∷ 0x95 ∷ 0x18 ∷ 0xd3 ∷ 0x8a ∷ 0xa8
          ∷ 0xdb ∷ 0xf1 ∷ 0x92 ∷ 0x5a ∷ 0xb9 ∷ 0x23 ∷ 0x86 ∷ 0xed ∷ 0xd4 ∷ 0x00 ∷ 0x99 ∷ 0x23 ∷ []))
unfolding blake2b new_state compress g words_of round rounds fold_back increment_counter
    copy_from_slice make_room update_loop all_bytes le_bytes last_block finalize update_each
blake2b-abc = refl

hash-concat_example :
    hash ((97 ∷ []) ∷ (98 ∷ 99 ∷ []) ∷ []) 64 none ≡ hash ((97 ∷ 98 ∷ 99 ∷ []) ∷ []) 64 none
hash-concat_example = hash-concat ((97 ∷ []) ∷ (98 ∷ 99 ∷ []) ∷ []) 64 none

abbrev digest_len : ℕ
digest_len = 64

abbrev some_key : Option (List ℕ)
some_key = some (1 ∷ 2 ∷ [])

blake2b-cases_example :
    (((digest_len ≡ 0) ⊎ ((64 < digest_len) ⊎ BadKey some_key))
      × (blake2b (97 ∷ []) digest_len some_key ≡ done none))
    ⊎ ((0 < digest_len)
        × (digest_len ≤ 64)
        × GoodKey some_key
        × ((out : List ℕ) × (blake2b (97 ∷ []) digest_len some_key ≡ done (some out))
            × (length out ≡ digest_len)))
blake2b-cases_example = blake2b-cases (97 ∷ []) digest_len some_key
