-- ===== src/Argon/Password.antt =====
-- Password hashing and verification: `validate_params`, `constant_time_eq`, `hash_password`,
-- `hash_password_with_params` and `verify_password` of crap_os/src/crypto/hash/argon2.rs.
pub mod Compare
pub mod Verify
use crap_os.Base.{
  ℕ, bit_or, bit_xor, Bool, false, not, List, [], length, Result, ok, err, ltb, ◌*◌, ◌%◌, ◌^◌, ◌∷◌,
  ◌==◌, if◌then◌else◌,
}
use crap_os.Argon.{argon2id_raw}
use crap_os.Argon.Phc.{
  Argon2Error, memory_cost_too_low, time_cost_zero, parallelism_zero, salt_too_short,
  password_empty, invalid_phc_string, password_mismatch, Phc, encode_phc, decode_phc,
}
use crap_os.Tasks.Outcome.{Outcome, done, ◌>>=◌}

abbrev default_m_cost : ℕ
default_m_cost = 19456

abbrev default_t_cost : ℕ
default_t_cost = 2

abbrev default_p_cost : ℕ
default_p_cost = 1

-- The product `8 * p_cost` wraps.
unfoldable pub validate_params : List ℕ → List ℕ → ℕ → ℕ → ℕ → Result Argon2Error (Unit {0})
validate_params password salt m_cost t_cost p_cost =
    if length password == 0
    then err password_empty
    else if ltb (length salt) 8
    then err salt_too_short
    else if t_cost == 0
    then err time_cost_zero
    else if p_cost == 0
    then err parallelism_zero
    else if ltb m_cost (8 * p_cost % 2 ^ 32)
    then err memory_cost_too_low
    else ok tt

-- The loop over both slices, with the difference so far.
abbrev differences : ℕ → List ℕ → List ℕ → ℕ
differences diff [] ys = diff
differences diff (x ∷ xs) [] = diff
differences diff (x ∷ xs) (y ∷ ys) = differences (bit_or diff (bit_xor x y)) xs ys

unfoldable pub constant_time_eq : List ℕ → List ℕ → Bool
constant_time_eq a b = if not (length a == length b) then false else differences 0 a b == 0

-- With the parameters accepted or refused.
abbrev hash_validated :
    Result Argon2Error (Unit {0})
    → List ℕ
    → List ℕ
    → ℕ
    → ℕ
    → ℕ
    → Outcome (Result Argon2Error (List ℕ))
hash_validated (err e) password salt m_cost t_cost p_cost = done (err e)
hash_validated (ok u) password salt m_cost t_cost p_cost =
    argon2id_raw password salt m_cost t_cost p_cost >>= λ hash.
    encode_phc salt hash m_cost t_cost p_cost >>= λ text. done (ok text)

unfoldable pub hash_password_with_params :
    List ℕ → List ℕ → ℕ → ℕ → ℕ → Outcome (Result Argon2Error (List ℕ))
hash_password_with_params password salt m_cost t_cost p_cost =
    hash_validated (validate_params password salt m_cost t_cost p_cost) password salt m_cost t_cost
      p_cost

unfoldable pub hash_password : List ℕ → List ℕ → Outcome (Result Argon2Error (List ℕ))
unfolding hash_password_with_params
hash_password password salt =
    hash_password_with_params password salt default_m_cost default_t_cost default_p_cost

abbrev verify_decoded : List ℕ → Result Argon2Error Phc → Outcome (Result Argon2Error (Unit {0}))
verify_decoded password (err e) = done (err e)
verify_decoded password (ok r) =
    argon2id_raw password r.salt r.m_cost r.t_cost r.p_cost >>= λ computed.
    done (if not (constant_time_eq computed r.hash) then err password_mismatch else ok tt)

unfoldable pub verify_password : List ℕ → List ℕ → Outcome (Result Argon2Error (Unit {0}))
verify_password password phc = verify_decoded password (decode_phc phc)
