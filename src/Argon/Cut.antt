-- ===== src/Argon/Cut.antt =====
-- Argon2id with too little memory for four blocks in each lane.
use crap_os.Base.{
  ap, ℕ, zero, suc, refl, inl, inr, false, List, [], arith, ltb, ◌/◌, ◌*◌, ◌<◌, ◌≡◌, ◌==◌, ◌⊎◌,
}
use native.Mathlib.Nat.{div-eq_of_lt}
use crap_os.Argon.{argon2id_raw, init_lane}
use crap_os.Argon.Total.{compute_h0-Returns, h_prime_1024-Ends}
use crap_os.Tasks.Outcome.{panic, for}

init_lane-empty : (h0 : List ℕ) (lane_len : ℕ) → init_lane h0 lane_len 0 [] ≡ panic
unfolding init_lane
init_lane-empty h0 lane_len =
    let (b0, e0, u0) = h_prime_1024-Ends h0 0 0 in
    let (b1, e1, u1) = h_prime_1024-Ends h0 1 0 in
    let none_fits : ltb (0 * lane_len) 0 ≡ false = ground arith in rw (e0, e1, none_fits) refl

init_lanes-empty :
    (h0 : List ℕ) (lane_len p : ℕ) → 0 < p → for p 0 (init_lane h0 lane_len) [] ≡ panic
unfolding for
init_lanes-empty h0 lane_len zero h = absurd (omega (arith, h))
init_lanes-empty h0 lane_len (suc p) h = rw (init_lane-empty h0 lane_len) refl

no_blocks : (m_cost p : ℕ) → m_cost < 4 * p → m_cost / (4 * p) * (4 * p) ≡ 0
no_blocks m_cost p h =
    let q : m_cost / (4 * p) ≡ 0 = div-eq_of_lt h in omega (arith, ap (λ n. n * (4 * p)) q)

-- Without a lane, or without four blocks for each lane, Argon2id panics.
pub argon2id_raw-panic :
    (password salt : List ℕ) (m_cost t_cost p : ℕ)
    → (p ≡ 0) ⊎ (m_cost < 4 * p)
    → argon2id_raw password salt m_cost t_cost p ≡ panic
unfolding argon2id_raw
argon2id_raw-panic password salt m_cost t_cost p (inl h) = rw h refl
argon2id_raw-panic password salt m_cost t_cost p (inr h) =
    let some_lane : (p == 0) ≡ false = ground arith in
    let (h0, e0, n0) = compute_h0-Returns password salt m_cost t_cost p in
    rw (some_lane, e0, no_blocks m_cost p h, init_lanes-empty h0 _ p (omega arith)) refl
