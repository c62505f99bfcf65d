-- ===== src/Argon/Phc/Split.antt =====
-- `str::split` on a text that is put together from parts.
use crap_os.Base.{ℕ, refl, inl, inr, false, List, [], All, Bool-cases, ◌≡◌, ◌∷◌, ◌++◌, ◌==◌}
use crap_os.Argon.Phc.{split}

-- A text in front of the first part.
abbrev pub append_first : List ℕ → List (List ℕ) → List (List ℕ)
append_first xs [] = xs ∷ []
append_first xs (part ∷ parts) = (xs ++ part) ∷ parts

abbrev pub Apart : ℕ → List ℕ → Type 0
Apart separator text = All (λ c. (c == separator) ≡ false) text

-- There is always a first part.
split-cons :
    (separator : ℕ) (text : List ℕ)
    → (part : List ℕ) × (parts : List (List ℕ)) × (split separator text ≡ part ∷ parts)
unfolding split
split-cons separator [] = ([], [], refl)
split-cons separator (c ∷ cs) =
    let (part, parts, e) = split-cons separator cs in
    elim (Bool-cases (c == separator)) [
      | inl h ↦ ([], split separator cs, rw h refl)
      | inr h ↦ (c ∷ part, parts, rw (h, e) refl)
    ]

-- What has no separator goes to the first part.
pub split-append :
    (separator : ℕ) (xs ys : List ℕ)
    → Apart separator xs
    → split separator (xs ++ ys) ≡ append_first xs (split separator ys)
unfolding split
split-append separator [] ys all = let (part, parts, e) = split-cons separator ys in rw e refl
split-append separator (x ∷ xs) ys (h, all) =
    let (part, parts, e) = split-cons separator ys in
    rw (h, split-append separator xs ys all, e) refl
