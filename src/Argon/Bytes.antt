-- ===== src/Argon/Bytes.antt =====
-- The digest of Argon2id is a list of bytes.
use crap_os.Base.{
  ℕ, zero, suc, inl, inr, Option, none, List, [], arith, All, All-append, length, ltb, leb,
  Bool-cases, ◌/◌, ◌<◌, ◌≡◌, ◌∷◌, ◌==◌,
}
use crap_os.Argon.{argon2id_raw, exact_digest, filled_block, hash_len}
use crap_os.Blake.{
  all_bytes, finalize, h_prime, hash, last_block, le_bytes, new_state, take, update_each,
  Blake2bState,
}
use crap_os.Tasks.Outcome.{Outcome, done, panic, no_fuel, ◌>>=◌}

abbrev pub AreBytes : List ℕ → Type 0
AreBytes bytes = All (λ b. b < 256) bytes

-- What holds of the result of a routine, if it returns.
abbrev Keeps : {A : Type 0} → (A → Type 0) → Outcome A → Type 0
Keeps P (done a) = P a
Keeps P panic = Unit
Keeps P no_fuel = Unit

Keeps-bind :
    {A B : Type 0} (Q : A → Type 0) (P : B → Type 0) (r : Outcome A) (k : A → Outcome B)
    → Keeps Q r
    → ((a : A) → Q a → Keeps P (k a))
    → Keeps P (r >>= k)
Keeps-bind Q P (done a) k q h = h a q
Keeps-bind Q P panic k q h = tt
Keeps-bind Q P no_fuel k q h = tt

Keeps-any : {A : Type 0} (r : Outcome A) → Keeps (λ a. Unit {0}) r
Keeps-any (done a) = tt
Keeps-any panic = tt
Keeps-any no_fuel = tt

le_bytes-AreBytes : (n w : ℕ) → AreBytes (le_bytes n w)
unfolding le_bytes
le_bytes-AreBytes zero w = tt
le_bytes-AreBytes (suc n) w = (omega arith, le_bytes-AreBytes n (w / 256))

all_bytes-AreBytes : (ws : List ℕ) → AreBytes (all_bytes ws)
unfolding all_bytes
all_bytes-AreBytes [] = tt
all_bytes-AreBytes (w ∷ ws) =
    All-append (λ b. b < 256) (le_bytes 8 w) (all_bytes ws) (le_bytes-AreBytes 8 w)
      (all_bytes-AreBytes ws)

take-AreBytes : (n : ℕ) (bytes : List ℕ) → AreBytes bytes → AreBytes (take n bytes)
take-AreBytes zero bytes h = tt
take-AreBytes (suc n) [] h = tt
take-AreBytes (suc n) (b ∷ bs) (h, rest) = (h, take-AreBytes n bs rest)

finalize-AreBytes : (s : Blake2bState) → Keeps AreBytes (finalize s)
unfolding finalize
finalize-AreBytes s = elim (Bool-cases (leb s.out_len 64)) [
  | inl e ↦
      rw e
        (take-AreBytes s.out_len (all_bytes (last_block s).h) (all_bytes-AreBytes (last_block s).h))
  | inr e ↦ rw e tt
]

hash-AreBytes :
    (inputs : List (List ℕ)) (out_len : ℕ) (key : Option (List ℕ))
    → Keeps AreBytes (hash inputs out_len key)
hash-AreBytes inputs out_len key =
    Keeps-bind (λ s. Unit {0}) AreBytes (new_state out_len key >>= update_each inputs) finalize
      (Keeps-any _) (λ s u. finalize-AreBytes s)

h_prime-AreBytes : (input : List ℕ) → Keeps AreBytes (h_prime input hash_len)
unfolding h_prime
h_prime-AreBytes input = hash-AreBytes _ 32 none

exact-AreBytes : (digest : List ℕ) → AreBytes digest → Keeps AreBytes (exact_digest digest)
exact-AreBytes digest h = elim (Bool-cases (ltb (length digest) hash_len)) [
  | inl e ↦ rw e tt
  | inr e ↦ rw e (take-AreBytes hash_len digest h)
]

argon2id_raw-Keeps :
    (password salt : List ℕ) (m_cost t_cost p : ℕ)
    → Keeps AreBytes (argon2id_raw password salt m_cost t_cost p)
unfolding argon2id_raw
argon2id_raw-Keeps password salt m_cost t_cost p = elim (Bool-cases (p == 0)) [
  | inl e ↦ rw e tt
  | inr e ↦ rw e (
      Keeps-bind (λ a. Unit {0}) AreBytes (filled_block password salt m_cost t_cost p)
        (λ block. h_prime (all_bytes block) hash_len >>= exact_digest) (Keeps-any _)
        (λ block u.
          Keeps-bind AreBytes AreBytes (h_prime (all_bytes block) hash_len) exact_digest
            (h_prime-AreBytes (all_bytes block)) exact-AreBytes))
]

pub argon2id_raw-AreBytes :
    (password salt : List ℕ) (m_cost t_cost p : ℕ) (digest : List ℕ)
    → argon2id_raw password salt m_cost t_cost p ≡ done digest
    → AreBytes digest
argon2id_raw-AreBytes password salt m_cost t_cost p digest e =
    rw e at (argon2id_raw-Keeps password salt m_cost t_cost p)
