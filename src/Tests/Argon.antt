-- ===== src/Tests/Argon.antt =====
-- Argon2id at concrete inputs.
use crap_os.Base.{ℕ, refl, List, [], arith, ok, err, ◌*◌, ◌^◌, ◌≤◌, ◌<◌, ◌≡◌, ◌≢◌, ◌∷◌, ◌⊎◌}
use crap_os.Argon.{Segment, argon2id_raw, hash_len, index_alpha}
use crap_os.Argon.Bytes.{AreBytes}
use crap_os.Argon.Index.{block_at, index_alpha-inside}
use crap_os.Argon.Password.{hash_password_with_params, validate_params, verify_password}
use crap_os.Argon.Password.Verify.{hash_password_with_params-cases, verify_password-hash_password}
use crap_os.Argon.Phc.{Argon2Error, decode_phc, password_mismatch}
use crap_os.Argon.Total.{argon2id_raw-Returns}
use crap_os.Blake.Lengths.{Returns}
use crap_os.Tasks.Outcome.{Ends, done, panic}

abbrev a_password : List ℕ
a_password = 97 ∷ []

abbrev another : List ℕ
another = 98 ∷ []

abbrev a_salt : List ℕ
a_salt = 1 ∷ 2 ∷ 3 ∷ 4 ∷ 5 ∷ 6 ∷ 7 ∷ 8 ∷ []

salt-AreBytes : AreBytes a_salt
salt-AreBytes = (
  omega arith,
  (
    omega arith,
    (omega arith, (omega arith, (omega arith, (omega arith, (omega arith, (omega arith, tt)))))),
  ),
)

valid : validate_params a_password a_salt 8 1 1 ≡ ok tt
unfolding validate_params
valid = refl

verify_password-hash_password_example :
    (text : List ℕ) × (hash_password_with_params a_password a_salt 8 1 1 ≡ done (ok text))
    × (((verify_password another text ≡ done (ok tt))
          × (argon2id_raw another a_salt 8 1 1 ≡ argon2id_raw a_password a_salt 8 1 1))
        ⊎ ((verify_password another text ≡ done (err password_mismatch))
            × (argon2id_raw another a_salt 8 1 1 ≢ argon2id_raw a_password a_salt 8 1 1)))
verify_password-hash_password_example =
    verify_password-hash_password a_password another a_salt 8 1 1 valid salt-AreBytes (omega arith)
      (omega arith) (omega arith) (omega arith)

hash_password_with_params-cases_example :
    ((e : Argon2Error) × (validate_params a_password a_salt 8 1 1 ≡ err e)
      × (hash_password_with_params a_password a_salt 8 1 1 ≡ done (err e)))
    ⊎ (((validate_params a_password a_salt 8 1 1 ≡ ok tt)
          × (4 * 1 ≤ 8)
          × ((hash : List ℕ) × (text : List ℕ) × (argon2id_raw a_password a_salt 8 1 1 ≡ done hash)
              × (hash_password_with_params a_password a_salt 8 1 1 ≡ done (ok text))
              × (decode_phc text
                  ≡ ok
                      (record { salt = a_salt; hash = hash; m_cost = 8; t_cost = 1; p_cost = 1 }))))
        ⊎ ((validate_params a_password a_salt 8 1 1 ≡ ok tt)
            × (8 < 4 * 1)
            × (2 ^ 32 ≤ 8 * 1)
            × (hash_password_with_params a_password a_salt 8 1 1 ≡ panic)))
hash_password_with_params-cases_example =
    hash_password_with_params-cases a_password a_salt 8 1 1 salt-AreBytes (omega arith)
      (omega arith) (omega arith)

argon2id_raw-Returns_example : Returns hash_len (argon2id_raw a_password a_salt 8 2 2)
argon2id_raw-Returns_example =
    argon2id_raw-Returns a_password a_salt 8 2 2 (omega arith) (omega arith)

abbrev a_segment : Segment
a_segment = record {
  pass = 0;
  lane = 1;
  slice = 1;
  lane_len = 8;
  segment_len = 2;
  p = 2;
  t_cost = 1;
}

index_alpha-inside_example :
    Ends
      (λ i.
        (i < a_segment.p * a_segment.lane_len)
        × ((a_segment.pass ≢ 0)
            ⊎ ((a_segment.lane * a_segment.lane_len ≤ i) × (i < block_at a_segment 1))))
      (index_alpha 7 a_segment (block_at a_segment 1))
index_alpha-inside_example =
    index_alpha-inside 7 a_segment 1
      (record {
        in_lanes = omega arith;
        in_lane = omega arith;
        quarters = refl;
        nonempty = omega arith;
      })
      (record { inside = omega arith; started = λ e. omega arith })
