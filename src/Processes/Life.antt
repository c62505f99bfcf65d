-- ===== src/Processes/Life.antt =====
-- The first process, the search by name, and the threads that leave a process.
use crap_os.Base.{
  fun_ext, length, ◌<◌, Option-cases, eq_bytes, ℕ, refl, sym, ap, inl, inr, true, false, Option,
  none, some, List, [], arith, All, update, Bool-cases, ==_iff, ◌≡◌, ◌∷◌, ◌++◌, ◌==◌, if◌then◌else◌,
  ◌∙◌,
}
use crap_os.Processes.{System, Process, find_by_name, keep_others, remove_thread}
use crap_os.Processes.Register.{Created}
use crap_os.Processes.Numbered.{Numbered, chosen-cases}
use crap_os.Processes.Sound.{IsSystem, Listed, Owned, kept}
use crap_os.Paging.AddressSpace.{AddressSpace}
use crap_os.Tasks.Ids.{TaskId, idle}
use crap_os.Tasks.State.{Task, Thread, TaskSlot}
use crap_os.Tasks.Table.{get_task, insert_idle_task}

-- The threads of a process without the one at an address.
abbrev pub without : ℕ → List ℕ → List ℕ
without at [] = []
without at (b ∷ rest) = if b == at then without at rest else b ∷ without at rest

keep_others-without :
    (s : System) (p at : ℕ) (t : Thread) (xs : List ℕ)
    → IsSystem s
    → s.kernel.threads at ≡ some t
    → All (Owned s p) xs
    → keep_others s.kernel.threads t.id xs ≡ without at xs
keep_others-without s p at t [] h live all = refl
keep_others-without s p at t (b ∷ rest) h live (o, all) =
    let ih = keep_others-without s p at t rest h live all in
    elim (Bool-cases (b == at)) [
      | inl e ↦
          let same : b ≡ at = (==_iff b at).0 e in
          let found : s.kernel.threads b ≡ some t = ap s.kernel.threads same ∙ live in
          let it : (t.id == t.id) ≡ true = ground arith in rw (found, it, e, keep_others) ih
      | inr e ↦
          let differs : (o.thread.id == t.id) ≡ false = (elim (Bool-cases (o.thread.id == t.id)) [
            | inl f ↦ absurd (
                let same =
                  h.thread_ids.unique b at o.thread t o.live live ((==_iff o.thread.id t.id).0 f) in
                let yes : (b == at) ≡ true = (==_iff b at).1 same in
                let no : true ≡ false = sym yes ∙ e in cc)
            | inr f ↦ f
          ]) in
          rw (o.live, differs, e, keep_others) (ap (λ l. b ∷ l) ih)
    ]

-- In a sound system, `remove_thread` with the id of a thread takes its address out of the thread list
-- of the process, and nothing else: no other thread, no other process, and no task.
pub remove_thread-without :
    (s : System) (p at : ℕ) (proc : Process) (t : Thread)
    → IsSystem s
    → s.store p ≡ some proc
    → s.kernel.threads at ≡ some t
    → remove_thread p t.id s ≡ record s {
      store = update s.store p (some (record proc { threads = without at proc.threads }));
    }
unfolding remove_thread
remove_thread-without s p at proc t h live found =
    let kept_threads = keep_others-without s p at t proc.threads h found (h.owned p proc live) in
    rw (live, kept_threads, remove_thread) refl

-- The answer for a list that got a process at its end.
abbrev pub or_last : Option ℕ → Option ℕ → Option ℕ
or_last none last = last
or_last (some q) last = some q

find_by_name-append :
    (store store' : ℕ → Option Process) (wanted : List ℕ) (p : ℕ) (proc : Process) (xs : List ℕ)
    → All (λ q. store' q ≡ store q) xs
    → store' p ≡ some proc
    → find_by_name store' wanted (xs ++ p ∷ [])
      ≡ or_last (find_by_name store wanted xs) (if eq_bytes proc.name wanted then some p else none)
unfolding find_by_name
find_by_name-append store store' wanted p proc [] same live = rw live refl
find_by_name-append store store' wanted p proc (q ∷ xs) (e, same) live =
    let ih = find_by_name-append store store' wanted p proc xs same live in
    elim (Option-cases (store q)) [
      | inl f ↦ rw (e, f, find_by_name) ih
      | inr (a, f) ↦ elim (Bool-cases (eq_bytes a.name wanted)) [
        | inl g ↦ rw (e, f, g, find_by_name) refl
        | inr g ↦ rw (e, f, g, find_by_name) ih
      ]
    ]

Listed-same :
    (s : System) (p : ℕ) (x : Option Process) (xs : List ℕ)
    → s.store p ≡ none
    → All (Listed s) xs
    → All (λ q. (if q == p then x else s.store q) ≡ s.store q) xs
Listed-same s p x [] free all = tt
Listed-same s p x (q ∷ xs) free (l, all) =
    (kept s.store p q x (s.store q) free l.live, Listed-same s p x xs free all)

-- After a process was created, the search by a name finds what it found before, and the new process if
-- it found none and the name is that of the new process.
pub find_by_name-Created :
    (p at : ℕ) (name wanted : List ℕ) (space : AddressSpace) (task : Task) (ids : List TaskId)
    (s s' : System) (id : TaskId)
    → IsSystem s
    → s.store p ≡ none
    → Created p at name space task ids s s' id
    → find_by_name s'.store wanted s'.processes
      ≡ or_last
          (find_by_name s.store wanted s.processes)
          (if eq_bytes name wanted then some p else none)
find_by_name-Created p at name wanted space task ids s s' id h free c =
    let made : Process = record {
      id = s.next_process_id;
      name = name;
      address_space = space;
      threads = at ∷ [];
    } in
    let after : ℕ → Option Process = λ b. if b == p then some made else s.store b in
    let same : (p == p) ≡ true = ground arith in
    ap (λ f. find_by_name f wanted s'.processes) (fun_ext c.store)
    ∙ ap (find_by_name after wanted) c.processes
    ∙ find_by_name-append s.store after wanted p made s.processes
        (Listed-same s p (some made) s.processes free h.listed) (rw same refl)

-- The system at boot: no process and no thread, and no task.
pub record Boots (s : System) : Type 0 where
  pub store : (b : ℕ) → s.store b ≡ none
  pub threads : (b : ℕ) → s.kernel.threads b ≡ none
  pub processes : s.processes ≡ []
  pub counters : (s.next_process_id ≡ 1) × (s.next_thread_id ≡ 1)
  pub tasks : 0 < length s.kernel.tasks

pub get_task-idle :
    (slots : List TaskSlot) (t : Task)
    → 0 < length slots
    → get_task (insert_idle_task t slots) idle ≡ some t
unfolding get_task insert_idle_task
get_task-idle [] t h = absurd (omega arith)
get_task-idle (slot ∷ slots) t h = refl

-- A store with one block.
pub single :
    {A : Type 0} (number : A → ℕ) (store : ℕ → Option A) (p : ℕ) (only : A)
    → number only < 1
    → ((b : ℕ) → store b ≡ (if b == p then some only else none))
    → Numbered number 1 store
single number store p only small write =
    let at_p : (q : ℕ) (a : _) → store q ≡ some a → (q ≡ p) × (only ≡ a) = λ q a e.
      (elim (chosen-cases q p only a none (sym (write q) ∙ e)) [
        | inl h ↦ h
        | inr (_, h) ↦ absurd (let h' = h in cc)
      ]) in
    record {
      below = λ q a e. (let same = ap number (at_p q a e).1 in omega (arith, same, small));
      unique = λ q r a b ea eb same. (at_p q a ea).0 ∙ sym (at_p r b eb).0;
    }
