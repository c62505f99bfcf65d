-- ===== src/Ring/Window.antt =====
-- What stands in consecutive slots of a ring of `s` slots.
use native.Mathlib.Nat.{mod-add-mod, mod-eq_of_lt, mod-eq-sub-mod, mod-lt, mod-mod, add-zero}
use native.Mathlib.Numerals.{add-one}
use native.Mathlib.Decide.{dec_lt}
use crap_os.Base.{
  ◌-◌, ℕ, zero, suc, ◌+◌, ◌%◌, ◌<◌, ◌≤◌, ◌≡◌, ◌≢◌, refl, ◌∙◌, sym, ap, ap₂, List, [], ◌∷◌, ◌++◌,
  arith, update,
}

-- Less than a turn apart, two indices name two slots.
turn : (s r d : ℕ) → 0 < d → d < s → r < s → (r + d) % s ≢ r
turn s r d pos small h e = elim (dec_lt (r + d) s) [
  | yes p ↦ absurd (omega (arith, mod-eq_of_lt p))
  | no p ↦
      let below : r + d - s < s = omega arith in
      let over : s ≤ r + d = omega arith in
      absurd (omega (arith, mod-eq-sub-mod over, mod-eq_of_lt below))
]

pub mod_apart : (s i k n : ℕ) → k < n → n < s → (i + k) % s ≢ (i + n) % s
mod_apart s i k n h g e =
    let pos : 0 < s = omega arith in
    let sum : i + k + (n - k) ≡ i + n = omega arith in
    turn s ((i + k) % s) (n - k) (omega arith) (omega arith) (mod-lt (i + k) pos)
      (mod-add-mod (i + k) s (n - k) ∙ ap (λ t. t % s) sum ∙ sym e)

mod_step : (s i j : ℕ) → i % s ≡ j % s → (i + 1) % s ≡ (j + 1) % s
mod_step s i j e = sym (mod-add-mod i s 1) ∙ ap (λ t. (t + 1) % s) e ∙ mod-add-mod j s 1

module _ {E : Type 0} (s : ℕ) (f : ℕ → E) where
  abbrev pub window : ℕ → ℕ → List E
  window i zero = []
  window i (suc n) = f (i % s) ∷ window (i + 1) n

  pub window_congr : (i j n : ℕ) → i % s ≡ j % s → window i n ≡ window j n
  window_congr i j zero e = refl
  window_congr i j (suc n) e = ap₂ ◌∷◌ (ap f e) (window_congr (i + 1) (j + 1) n (mod_step s i j e))

  pub window-mod : (i n : ℕ) → window (i % s) n ≡ window i n
  window-mod i n = window_congr (i % s) i n (mod-mod i s)

  pub window-suc : (i n : ℕ) → window i (suc n) ≡ window i n ++ f ((i + n) % s) ∷ []
  window-suc i zero = ap (λ t. f (t % s) ∷ []) (omega arith)
  window-suc i (suc n) =
      ap (λ (t : List E). f (i % s) ∷ t)
        (window-suc (i + 1) n ∙ ap (λ t. window (i + 1) n ++ f (t % s) ∷ []) (omega arith))

  pub window-add_one : (i n : ℕ) → window i (n + 1) ≡ window i n ++ f ((i + n) % s) ∷ []
  window-add_one i n = ap (λ t. window i t) (add-one n) ∙ window-suc i n

module _ {E : Type 0} (s : ℕ) where
  -- The window reads its own slots alone.
  pub window_ext :
      (f g : ℕ → E) (i n : ℕ)
      → ((k : ℕ) → k < n → f ((i + k) % s) ≡ g ((i + k) % s))
      → window s f i n ≡ window s g i n
  window_ext f g i zero same = refl
  window_ext f g i (suc n) same =
      let here : f (i % s) ≡ g (i % s) =
        ap (λ x. f (x % s)) (sym (add-zero i))
        ∙ same 0 (omega arith)
        ∙ ap (λ x. g (x % s)) (add-zero i) in
      let next : (k : ℕ) → i + 1 + k ≡ i + suc k = λ k. omega arith in
      ap₂ ◌∷◌ here (
        window_ext f g (i + 1) n λ k h.
          ap (λ x. f (x % s)) (next k)
          ∙ same (suc k) (omega arith)
          ∙ ap (λ x. g (x % s)) (sym (next k)))

  -- A write to a slot outside the window is not seen in it.
  pub window-update :
      (f : ℕ → E) (t : ℕ) (e : E) (i n : ℕ)
      → ((k : ℕ) → k < n → (i + k) % s ≢ t)
      → window s (update f t e) i n ≡ window s f i n
  window-update f t e i n apart = window_ext (update f t e) f i n λ k h. ground (arith, apart k h)
