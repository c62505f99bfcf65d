-- ===== src/Argon/Password/Verify.antt =====
-- What hashing and verifying a password give, for all parameters.
use crap_os.Base.{
  sym, ap, Result-cases, leb, ◌∙◌, ℕ, refl, inl, inr, not, List, arith, ok, err, Bool-cases, ◌*◌,
  ◌%◌, ◌^◌, ◌≤◌, ◌<◌, ◌≡◌, ◌≢◌, if◌then◌else◌, ◌⊎◌,
}
use crap_os.Argon.{argon2id_raw}
use crap_os.Argon.Bytes.{AreBytes, argon2id_raw-AreBytes}
use crap_os.Argon.Cut.{argon2id_raw-panic}
use crap_os.Argon.Total.{argon2id_raw-Returns}
use crap_os.Argon.Password.{
  constant_time_eq, hash_password_with_params, validate_params, verify_password,
}
use crap_os.Argon.Password.Compare.{constant_time_eq_iff}
use crap_os.Argon.Phc.{Argon2Error, Phc, decode_phc, password_mismatch}
use crap_os.Argon.Phc.RoundTrip.{decode-encode_phc}
use crap_os.Tasks.Outcome.{done, panic}

-- With accepted parameters and memory for each lane, the record of the password and the salt.
hash_password-encode :
    (password salt : List ℕ) (m_cost t_cost p_cost : ℕ)
    → validate_params password salt m_cost t_cost p_cost ≡ ok tt
    → AreBytes salt
    → m_cost < 2 ^ 32
    → t_cost < 2 ^ 32
    → p_cost < 2 ^ 32
    → 0 < p_cost
    → 4 * p_cost ≤ m_cost
    → (hash : List ℕ) × (text : List ℕ) × (argon2id_raw password salt m_cost t_cost p_cost
        ≡ done hash)
      × (hash_password_with_params password salt m_cost t_cost p_cost ≡ done (ok text))
      × (decode_phc text
          ≡ ok (record {
            salt = salt;
            hash = hash;
            m_cost = m_cost;
            t_cost = t_cost;
            p_cost = p_cost;
          }))
unfolding hash_password_with_params
hash_password-encode password salt m_cost t_cost p_cost valid bytes hm ht hp lanes room =
    let (hash, raw, n) = argon2id_raw-Returns password salt m_cost t_cost p_cost lanes room in
    let digest = argon2id_raw-AreBytes password salt m_cost t_cost p_cost hash raw in
    let (text, encoded, decoded) =
      decode-encode_phc salt hash m_cost t_cost p_cost bytes digest hm ht hp in
    (hash, text, raw, rw (valid, raw, encoded) refl, decoded)

-- What accepted parameters satisfy.
validate_params-ok :
    (password salt : List ℕ) (m_cost t_cost p_cost : ℕ)
    → validate_params password salt m_cost t_cost p_cost ≡ ok tt
    → (0 < p_cost) × (8 * p_cost % 2 ^ 32 ≤ m_cost)
unfolding validate_params
validate_params-ok password salt m_cost t_cost p_cost h = ground arith

-- A comparison with a stored digest.
compared :
    (computed stored : List ℕ)
    → (((if not (constant_time_eq computed stored) then err password_mismatch else ok tt) ≡ ok tt)
        × (computed ≡ stored))
      ⊎ (((if not (constant_time_eq computed stored) then err password_mismatch else ok tt)
            ≡ err password_mismatch)
          × (computed ≢ stored))
compared computed stored = elim (Bool-cases (constant_time_eq computed stored)) [
  | inl e ↦ inl (rw e refl, (constant_time_eq_iff computed stored).0 e)
  | inr e ↦
      inr (rw e refl, λ same. absurd (let t = (constant_time_eq_iff computed stored).1 same in cc))
]

-- A record that was written for a password, with another password or the same.
verify-decoded :
    (other text : List ℕ) (r : Phc) (hash computed : List ℕ)
    → decode_phc text ≡ ok r
    → r.hash ≡ hash
    → argon2id_raw other r.salt r.m_cost r.t_cost r.p_cost ≡ done computed
    → ((verify_password other text ≡ done (ok tt)) × (computed ≡ hash))
      ⊎ ((verify_password other text ≡ done (err password_mismatch)) × (computed ≢ hash))
unfolding verify_password
verify-decoded other text r hash computed decoded same raw = elim (compared computed hash) [
  | inl (e, h) ↦ inl (rw (decoded, raw, same, e) refl, h)
  | inr (e, h) ↦ inr (rw (decoded, raw, same, e) refl, h)
]

-- The costs and the salt are accepted, and are 32-bit numbers and bytes, with four blocks of memory
-- for each lane. Then hashing a password returns a record. Verifying any password against it returns:
-- it is accepted if its digest is the digest of the password that was hashed, as for this password
-- itself, and refused as a mismatch otherwise.
pub verify_password-hash_password :
    (password other salt : List ℕ) (m_cost t_cost p_cost : ℕ)
    → validate_params password salt m_cost t_cost p_cost ≡ ok tt
    → AreBytes salt
    → m_cost < 2 ^ 32
    → t_cost < 2 ^ 32
    → p_cost < 2 ^ 32
    → 4 * p_cost ≤ m_cost
    → (text : List ℕ) × (hash_password_with_params password salt m_cost t_cost p_cost
        ≡ done (ok text))
      × (((verify_password other text ≡ done (ok tt))
            × (argon2id_raw other salt m_cost t_cost p_cost
                ≡ argon2id_raw password salt m_cost t_cost p_cost))
          ⊎ ((verify_password other text ≡ done (err password_mismatch))
              × (argon2id_raw other salt m_cost t_cost p_cost
                  ≢ argon2id_raw password salt m_cost t_cost p_cost)))
verify_password-hash_password password other salt m_cost t_cost p_cost valid bytes hm ht hp room =
    let (lanes, _) = validate_params-ok password salt m_cost t_cost p_cost valid in
    let (hash, text, raw, hashed, decoded) =
      hash_password-encode password salt m_cost t_cost p_cost valid bytes hm ht hp lanes room in
    let (computed, raw', n) = argon2id_raw-Returns other salt m_cost t_cost p_cost lanes room in
    (
      text,
      hashed,
      elim (verify-decoded other text _ hash computed decoded refl raw') [
        | inl (e, h) ↦ inl (e, raw' ∙ ap done h ∙ sym raw)
        | inr (e, h) ↦
            inr (e, λ same. h (let d : done computed ≡ done hash = sym raw' ∙ same ∙ raw in cc))
      ],
    )

-- The costs are 32-bit numbers and the salt is bytes. Then hashing a password gives the error of
-- `validate_params`; or these accept the costs and the salt, there are four blocks for each lane, and
-- a record is returned that decodes to the salt, the costs and the digest; or these accept them with
-- fewer blocks, the product `8 * p_cost` has overflowed, and the call panics.
pub hash_password_with_params-cases :
    (password salt : List ℕ) (m_cost t_cost p_cost : ℕ)
    → AreBytes salt
    → m_cost < 2 ^ 32
    → t_cost < 2 ^ 32
    → p_cost < 2 ^ 32
    → ((e : Argon2Error) × (validate_params password salt m_cost t_cost p_cost ≡ err e)
        × (hash_password_with_params password salt m_cost t_cost p_cost ≡ done (err e)))
      ⊎ (((validate_params password salt m_cost t_cost p_cost ≡ ok tt)
            × (4 * p_cost ≤ m_cost)
            × ((hash : List ℕ) × (text : List ℕ) × (argon2id_raw password salt m_cost t_cost p_cost
                  ≡ done hash)
                × (hash_password_with_params password salt m_cost t_cost p_cost ≡ done (ok text))
                × (decode_phc text
                    ≡ ok (record {
                      salt = salt;
                      hash = hash;
                      m_cost = m_cost;
                      t_cost = t_cost;
                      p_cost = p_cost;
                    }))))
          ⊎ ((validate_params password salt m_cost t_cost p_cost ≡ ok tt)
              × (m_cost < 4 * p_cost)
              × (2 ^ 32 ≤ 8 * p_cost)
              × (hash_password_with_params password salt m_cost t_cost p_cost ≡ panic)))
unfolding hash_password_with_params
hash_password_with_params-cases password salt m_cost t_cost p_cost bytes hm ht hp =
    elim (Result-cases (validate_params password salt m_cost t_cost p_cost)) [
      | inl (e, h) ↦ inl (e, h, rw h refl)
      | inr (tt, h) ↦
          let (lanes, room) = validate_params-ok password salt m_cost t_cost p_cost h in
          (elim (Bool-cases (leb (4 * p_cost) m_cost)) [
            | inl e ↦ inr (
                inl (
                  h,
                  ground arith,
                  hash_password-encode password salt m_cost t_cost p_cost h bytes hm ht hp lanes
                      (ground arith),
                ))
            | inr e ↦
                let short : m_cost < 4 * p_cost = ground arith in
                let overflow : 2 ^ 32 ≤ 8 * p_cost = ground arith in
                let cut = argon2id_raw-panic password salt m_cost t_cost p_cost (inr short) in
                inr (inr (h, short, overflow, rw (h, cut) refl))
          ])
    ]
