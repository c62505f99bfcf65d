-- ===== src/Tasks/Outcome.antt =====
-- What a routine of the kernel does: it returns, or an `unwrap` or an `expect` panics, or a loop
-- is cut off because its fuel is used up.
use crap_os.Base.{
  true, ℕ, zero, suc, ◌+◌, ◌-◌, ◌≤◌, ◌<◌, ◌≡◌, refl, Option, none, some, leb, if◌then◌else◌, arith,
}

pub data Outcome (A : Type 0) : Type 0 where
  done : A → Outcome A
  panic no_fuel : Outcome A

infixl 5 ◌>>=◌
abbrev pub ◌>>=◌ : {A B : Type 0} → Outcome A → (A → Outcome B) → Outcome B
done a >>= k = k a
panic >>= k = panic
no_fuel >>= k = no_fuel

-- `unwrap`
abbrev pub unwrap : {A : Type 0} → Option A → Outcome A
unwrap none = panic
unwrap (some a) = done a

-- A subtraction that overflows when its result would be negative.
unfoldable pub sub : ℕ → ℕ → Outcome ℕ
sub a b = if leb b a then done (a - b) else panic

-- A loop over the indices from `i` on: the rounds that are left come first.
unfoldable pub for : {S : Type 0} → ℕ → ℕ → (ℕ → S → Outcome S) → S → Outcome S
for zero i body s = done s
for (suc rounds) i body s = body i s >>= for rounds (i + 1) body

-- A routine returns, with a result of which `P` holds.
abbrev pub Ends : {A : Type 0} → (A → Type 0) → Outcome A → Type 0
Ends {A} P result = (a : A) × (result ≡ done a) × P a

-- A loop whose body keeps a property returns with it.
pub for-Ends :
    {S : Type 0} (P : S → Type 0) (rounds i : ℕ) (body : ℕ → S → Outcome S) (s : S)
    → ((k : ℕ) (t : S) → i ≤ k → k < i + rounds → P t → Ends P (body k t))
    → P s
    → Ends P (for rounds i body s)
unfolding for
for-Ends P zero i body s keep p = (s, refl, p)
for-Ends P (suc rounds) i body s keep p =
    let (t, e, q) = keep i s (omega arith) (omega arith) p in
    let (u, e', r) =
      for-Ends P rounds (i + 1) body t (λ k v lo hi. keep k v (omega arith) (omega arith)) q in
    (u, rw e e', r)

pub sub-done : (a b : ℕ) → b ≤ a → sub a b ≡ done (a - b)
unfolding sub
sub-done a b h = let e : leb b a ≡ true = ground arith in rw e refl
