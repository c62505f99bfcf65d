-- ===== src/Acpi/Cpus.antt =====
-- The CPUs of a topology, as a list of at most 64.
use crap_os.Base.{
  ℕ, zero, suc, refl, sym, ap, inl, inr, List, [], append-nil, append_assoc, arith, length,
  length-set, set, ltb, Bool-cases, ◌+◌, ◌≤◌, ◌<◌, ◌≡◌, ◌∷◌, ◌++◌, if◌then◌else◌, ◌∙◌,
}
use crap_os.Acpi.{CpuInfo, CpuTopology, first, iter, max_cpus, new_topology, push_cpu}

pub record IsTopology (t : CpuTopology) : Type 0 where
  pub slots : length t.cpus ≡ max_cpus
  pub count : t.cpu_count ≤ max_cpus

pub new_topology-IsTopology : (id : ℕ) → IsTopology (record new_topology { bsp_apic_id = id })
new_topology-IsTopology id = record { slots = refl; count = omega arith }

pub push_cpu-IsTopology :
    (cpu : CpuInfo) (t : CpuTopology) → IsTopology t → IsTopology (push_cpu cpu t)
unfolding push_cpu
push_cpu-IsTopology cpu t h = elim (Bool-cases (ltb t.cpu_count max_cpus)) [
  | inl e ↦
      rw e (record { slots = length-set t.cpus t.cpu_count cpu ∙ h.slots; count = ground arith })
  | inr e ↦ rw e h
]

module _ {ℓ} {A : Type ℓ} where
  length-first : (n : ℕ) (xs : List A) → n ≤ length xs → length (first n xs) ≡ n
  length-first zero xs h = refl
  length-first (suc n) [] h = absurd (omega arith)
  length-first (suc n) (x ∷ xs) h = ap suc (length-first n xs (omega arith))

  first_all : (n : ℕ) (xs : List A) → length xs ≤ n → first n xs ≡ xs
  first_all zero [] h = refl
  first_all zero (x ∷ xs) h = absurd (omega arith)
  first_all (suc n) [] h = refl
  first_all (suc n) (x ∷ xs) h = ap (λ l. x ∷ l) (first_all n xs (omega arith))

  first_full : (n : ℕ) (xs ys : List A) → length xs ≡ n → first n (xs ++ ys) ≡ xs
  first_full zero [] ys h = refl
  first_full zero (x ∷ xs) ys h = absurd (omega (arith, h))
  first_full (suc n) [] ys h = absurd (omega (arith, h))
  first_full (suc n) (x ∷ xs) ys h = ap (λ l. x ∷ l) (first_full n xs ys (omega (arith, h)))

  first-set :
      (n : ℕ) (xs : List A) (x : A)
      → n < length xs
      → first (suc n) (set xs n x) ≡ first n xs ++ x ∷ []
  first-set n [] x h = absurd (omega arith)
  first-set zero (y ∷ ys) x h = refl
  first-set (suc n) (y ∷ ys) x h = ap (λ l. y ∷ l) (first-set n ys x (omega arith))

length-iter : (t : CpuTopology) → IsTopology t → length (iter t) ≡ t.cpu_count
unfolding iter
length-iter t h = length-first t.cpu_count t.cpus (omega (arith, h.slots, h.count))

pub iter-push_cpu :
    (cpu : CpuInfo) (t : CpuTopology)
    → IsTopology t
    → iter (push_cpu cpu t) ≡ (if ltb t.cpu_count max_cpus then iter t ++ cpu ∷ [] else iter t)
unfolding push_cpu iter
iter-push_cpu cpu t h = elim (Bool-cases (ltb t.cpu_count max_cpus)) [
  | inl e ↦
      let next : t.cpu_count + 1 ≡ suc t.cpu_count = omega arith in
      rw (e, next) (first-set t.cpu_count t.cpus cpu (ground (arith, h.slots)))
  | inr e ↦ rw e refl
]

-- One after the other.
abbrev pub push_all : List CpuInfo → CpuTopology → CpuTopology
push_all [] t = t
push_all (cpu ∷ cpus) t = push_all cpus (push_cpu cpu t)

-- The CPUs that are pushed come behind those that are there, up to the 64th.
pub iter-push_all :
    (cpus : List CpuInfo) (t : CpuTopology)
    → IsTopology t
    → iter (push_all cpus t) ≡ first max_cpus (iter t ++ cpus)
iter-push_all [] t h =
    let n = length-iter t h in
    rw append-nil (sym (first_all max_cpus (iter t) (omega (arith, n, h.count))))
iter-push_all (cpu ∷ cpus) t h =
    let ih = iter-push_all cpus (push_cpu cpu t) (push_cpu-IsTopology cpu t h) in
    let one = iter-push_cpu cpu t h in
    elim (Bool-cases (ltb t.cpu_count max_cpus)) [
      | inl e ↦
          let one' : iter (push_cpu cpu t) ≡ iter t ++ cpu ∷ [] = one ∙ (rw e refl) in
          ih
          ∙ ap (λ l. first max_cpus (l ++ cpus)) one'
          ∙ ap (first max_cpus) (append_assoc (iter t) (cpu ∷ []) cpus)
      | inr e ↦
          let one' : iter (push_cpu cpu t) ≡ iter t = one ∙ (rw e refl) in
          let n : length (iter t) ≡ max_cpus = length-iter t h ∙ ground (arith, h.count) in
          ih
          ∙ ap (λ l. first max_cpus (l ++ cpus)) one'
          ∙ first_full max_cpus (iter t) cpus n
          ∙ sym (first_full max_cpus (iter t) (cpu ∷ cpus) n)
    ]
