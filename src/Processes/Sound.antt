-- ===== src/Processes/Sound.antt =====
-- The ownership of processes and threads.
use crap_os.Base.{
  sym, true, arith, All-append, length-append, ◌++◌, refl, ap, inl, inr, Option, Bool-cases, ==_iff,
  ◌==◌, if◌then◌else◌, ◌∙◌, ℕ, none, some, List, [], All, length, ◌+◌, ◌^◌, ◌<◌, ◌≡◌, ◌∷◌,
}
use mathlib.Core.Path.{subst}
use crap_os.Processes.{active, System, Process, Owner, Frame, add_process}
use crap_os.Processes.Spawn.{Spawned}
use crap_os.Processes.Numbered.{Numbered, Numbered-add, Numbered-change, chosen-cases, mod_small}
use crap_os.Paging.AddressSpace.{AddressSpace}
use crap_os.Tasks.Ids.{TaskId}
use crap_os.Tasks.State.{Task, Thread}

-- A thread of the process `p`: it is there, its weak reference names `p`, and it has a task.
pub record Owned (s : System) (p at : ℕ) : Type 0 where
  pub thread : Thread
  pub task : TaskId
  pub live : s.kernel.threads at ≡ some thread
  pub owner : (s.owners at).process ≡ p
  pub has_task : thread.task_id ≡ some task

-- A process of the list: it is there, and has a thread.
pub record Listed (s : System) (p : ℕ) : Type 0 where
  pub process : Process
  pub live : s.store p ≡ some process
  pub not_empty : 0 < length process.threads

-- Every process owns its threads, every process of the list has one, and no id is given twice or again.
pub record IsSystem (s : System) : Type 0 where
  pub owned : (p : ℕ) (proc : Process) → s.store p ≡ some proc → All (Owned s p) proc.threads
  pub listed : All (Listed s) s.processes
  pub process_ids : Numbered (λ (a : Process). a.id) s.next_process_id s.store
  pub thread_ids : Numbered (λ (t : Thread). t.id) s.next_thread_id s.kernel.threads

pub All-map :
    {A : Type 0} (P Q : A → Type 0) (xs : List A) → ((a : A) → P a → Q a) → All P xs → All Q xs
All-map P Q [] f h = tt
All-map P Q (x ∷ xs) f (h, rest) = (f x h, All-map P Q xs f rest)

-- A thread that was there is not the new one.
pub kept :
    {A B : Type 0} (f : ℕ → Option A) (at b : ℕ) {a : A} (x y : B)
    → f at ≡ none
    → f b ≡ some a
    → (if b == at then x else y) ≡ y
kept f at b x y free live = elim (Bool-cases (b == at)) [
  | inl e ↦ absurd (let same : b ≡ at = (==_iff b at).0 e in let l = rw same at live in cc)
  | inr e ↦ rw e refl
]

pub Owned-kept :
    (s s' : System) (p b : ℕ) (o : Owned s p b)
    → s'.kernel.threads b ≡ s.kernel.threads b
    → s'.owners b ≡ s.owners b
    → Owned s' p b
Owned-kept s s' p b o same_thread same_owner = record {
  thread = o.thread;
  task = o.task;
  live = same_thread ∙ o.live;
  owner = ap (λ (w : Owner). w.process) same_owner ∙ o.owner;
  has_task = o.has_task;
}

-- A process with no thread is added. The address of the new block holds none yet.
pub add_process-IsSystem :
    (p : ℕ) (name : List ℕ) (space : AddressSpace) (s : System)
    → IsSystem s
    → s.store p ≡ none
    → s.next_process_id + 1 < 2 ^ 64
    → IsSystem (add_process p name space s)
add_process-IsSystem p name space s h free small =
    let fresh : Process = record {
      id = s.next_process_id;
      name = name;
      address_space = space;
      threads = [];
    } in
    record {
      owned = λ q proc e. (elim (chosen-cases q p fresh proc (s.store q) e) [
        | inl (_, same) ↦ rw (← same) tt
        | inr (_, old) ↦
            All-map (Owned s q) _ proc.threads (λ b o. Owned-kept s _ q b o refl refl)
              (h.owned q proc old)
      ]);
      listed =
          All-map (Listed s) _ s.processes
            (λ q l. record {
              process = l.process;
              live = kept s.store p q (some fresh) (s.store q) free l.live ∙ l.live;
              not_empty = l.not_empty;
            })
            h.listed;
      process_ids = rw (mod_small s.next_process_id small) (
          Numbered-add (λ (a : Process). a.id) s.next_process_id s.store _ p fresh h.process_ids
            refl (λ b. refl));
      thread_ids = h.thread_ids;
    }

-- A thread is spawned in a process that is there.
pub Spawned-IsSystem :
    (p at : ℕ) (proc : Process) (name : List ℕ) (task : Task) (frame : Frame) (ids : List TaskId)
    (s : System) (id : TaskId) (s' : System)
    → IsSystem s
    → s.store p ≡ some proc
    → s.kernel.threads at ≡ none
    → s.next_thread_id + 1 < 2 ^ 64
    → Spawned p at proc name task frame ids s id s'
    → IsSystem s'
Spawned-IsSystem p at proc name task frame ids s id s' h live free small sp =
    let thread : Thread = record { id = s.next_thread_id; task_id = some id; state = active } in
    let proc' : Process = record proc { threads = proc.threads ++ at ∷ [] } in
    let old : (q b : ℕ) → Owned s q b → Owned s' q b = λ q b o.
      Owned-kept s s' q b o (sp.threads b ∙ kept s.kernel.threads at b _ _ free o.live)
        (sp.owners b ∙ kept s.kernel.threads at b _ _ free o.live) in
    let same : (at == at) ≡ true = ground arith in
    let named : s'.owners at ≡ record { name = name; process = p } =
      sp.owners at ∙ (rw same refl) in
    let new : Owned s' p at = record {
      thread = thread;
      task = id;
      live = sp.threads at ∙ (rw same refl);
      owner = ap (λ (w : Owner). w.process) named;
      has_task = refl;
    } in
    record {
      owned = λ q found e. (elim (chosen-cases q p proc' found (s.store q) (sym (sp.store q) ∙ e)) [
        | inl (eq, is_new) ↦
            rw (← is_new, eq)
              (All-append (Owned s' p) proc.threads (at ∷ [])
                (All-map (Owned s p) (Owned s' p) proc.threads (old p) (h.owned p proc live))
                (new, tt))
        | inr (_, was) ↦
            All-map (Owned s q) (Owned s' q) found.threads (old q) (h.owned q found was)
      ]);
      listed =
          subst (λ xs. All (Listed s') xs) (sym sp.processes)
            (All-map (Listed s) (Listed s') s.processes
              (λ q l. (elim (Bool-cases (q == p)) [
                | inl e ↦ record {
                  process = proc';
                  live = sp.store q ∙ (rw e refl);
                  not_empty = rw (length-append {0}) (omega arith);
                }
                | inr e ↦ record {
                  process = l.process;
                  live = sp.store q ∙ (rw e l.live);
                  not_empty = l.not_empty;
                }
              ]))
              h.listed);
      process_ids = rw sp.next_process_id (
          Numbered-change (λ (a : Process). a.id) s.next_process_id s.store s'.store p proc'
            h.process_ids proc live refl sp.store);
      thread_ids =
          rw (sp.next_thread_id, mod_small s.next_thread_id small)
            (Numbered-add (λ (t : Thread). t.id) s.next_thread_id s.kernel.threads s'.kernel.threads
              at thread h.thread_ids refl sp.threads);
    }
