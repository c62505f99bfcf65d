-- ===== src/Argon/Phc.antt =====
-- Password records in the PHC format: `encode_phc` and `decode_phc` of
-- crap_os/src/crypto/hash/argon2.rs. A text is the list of its bytes.
pub mod Split
pub mod RoundTrip
use crap_os.Base.{
  eq_bytes, ℕ, Bool, true, false, not, Option, none, some, List, [], length, get_or, Result, ok,
  err, ◌∷◌, ◌++◌, ◌&&◌, ◌||◌, ◌==◌, if◌then◌else◌,
}
use crap_os.Helpers.Base64.{base64_encode, base64_decode}
use crap_os.Argon.Numbers.{u32_to_alloc_string, parse_param}
use crap_os.Tasks.Outcome.{Outcome, done, unwrap, ◌>>=◌}

pub data Argon2Error : Type 0 where
  memory_cost_too_low time_cost_zero parallelism_zero salt_too_short password_empty : Argon2Error
  invalid_phc_string password_mismatch : Argon2Error

-- The five values of a record.
pub record Phc : Type 0 where
  pub salt : List ℕ
  pub hash : List ℕ
  pub m_cost : ℕ
  pub t_cost : ℕ
  pub p_cost : ℕ

-- `$argon2id$v=19$m=`
abbrev prefix : List ℕ
prefix =
    b'$' ∷ b'a' ∷ b'r' ∷ b'g' ∷ b'o' ∷ b'n' ∷ b'2' ∷ b'i' ∷ b'd' ∷ b'$' ∷ b'v' ∷ b'=' ∷ b'1' ∷ b'9'
    ∷ b'$' ∷ b'm' ∷ b'=' ∷ []

abbrev pub phc_text : List ℕ → List ℕ → List ℕ → List ℕ → List ℕ → List ℕ
phc_text salt hash m t p =
    prefix
    ++ (m
        ++ (b','
            ∷ b't'
            ∷ b'='
            ∷ (t
                ++ (b','
                    ∷ b'p'
                    ∷ b'='
                    ∷ (p ++ (b'$' ∷ (base64_encode salt ++ (b'$' ∷ base64_encode hash))))))))

unfoldable pub encode_phc : List ℕ → List ℕ → ℕ → ℕ → ℕ → Outcome (List ℕ)
encode_phc salt hash m_cost t_cost p_cost = unwrap (u32_to_alloc_string m_cost) >>= λ m.
    unwrap (u32_to_alloc_string t_cost) >>= λ t.
    unwrap (u32_to_alloc_string p_cost) >>= λ p. done (phc_text salt hash m t p)

-- A character in front of the first part.
abbrev cons_first : ℕ → List (List ℕ) → List (List ℕ)
cons_first c [] = (c ∷ []) ∷ []
cons_first c (part ∷ parts) = (c ∷ part) ∷ parts

-- `str::split`: there is always a part, which may be empty.
unfoldable pub split : ℕ → List ℕ → List (List ℕ)
split separator [] = [] ∷ []
split separator (c ∷ cs) =
    let parts = split separator cs in if c == separator then [] ∷ parts else cons_first c parts

abbrev argon2id_name : List ℕ
argon2id_name = b'a' ∷ b'r' ∷ b'g' ∷ b'o' ∷ b'n' ∷ b'2' ∷ b'i' ∷ b'd' ∷ []

abbrev version_name : List ℕ
version_name = b'v' ∷ b'=' ∷ b'1' ∷ b'9' ∷ []

-- `ok_or(InvalidPhcString)?`
abbrev or_invalid :
    {A : Type 0} {B : Type 0} → Option A → (A → Result Argon2Error B) → Result Argon2Error B
or_invalid none k = err invalid_phc_string
or_invalid (some a) k = k a

-- The parameters and the two Base64 fields.
unfoldable decode_fields : List (List ℕ) → List ℕ → List ℕ → Result Argon2Error Phc
decode_fields params salt_text hash_text =
    let parsed = or_invalid (parse_param (get_or params 0 []) (b'm' ∷ b'=' ∷ [])) (λ m_cost.
      or_invalid (parse_param (get_or params 1 []) (b't' ∷ b'=' ∷ [])) (λ t_cost.
        or_invalid (parse_param (get_or params 2 []) (b'p' ∷ b'=' ∷ [])) (λ p_cost.
          or_invalid (base64_decode salt_text) (λ salt.
            or_invalid (base64_decode hash_text) (λ hash. ok (record {
              salt = salt;
              hash = hash;
              m_cost = m_cost;
              t_cost = t_cost;
              p_cost = p_cost;
            })))))) in
    if not (length params == 3) then err invalid_phc_string else parsed

unfoldable pub decode_parts : List (List ℕ) → Result Argon2Error Phc
unfolding decode_fields
decode_parts parts =
    let fields =
      decode_fields (split b',' (get_or parts 3 [])) (get_or parts 4 []) (get_or parts 5 []) in
    if not (length parts == 6)
      || not (eq_bytes (get_or parts 0 []) [])
      || not (eq_bytes (get_or parts 1 []) argon2id_name)
    then err invalid_phc_string
    else if not (eq_bytes (get_or parts 2 []) version_name)
    then err invalid_phc_string
    else fields

unfoldable pub decode_phc : List ℕ → Result Argon2Error Phc
unfolding split decode_parts
decode_phc phc = decode_parts (split b'$' phc)
