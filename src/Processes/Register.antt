-- ===== src/Processes/Register.antt =====
-- From a spawned main thread to the entry of the process in the list: the last step of the calls that
-- create a process.
use crap_os.Base.{
  ap, inl, inr, true, Bool-cases, ℕ, refl, sym, Option, none, some, List, [], arith, All-append,
  update, Result, ok, err, ◌+◌, ◌^◌, ◌<◌, ◌≡◌, ◌∷◌, ◌++◌, ◌==◌, if◌then◌else◌, ◌∙◌, ◌⊎◌,
}
use crap_os.Processes.{
  System, Process, Frame, add_process, main_name, new_thread, put_process, register,
}
use crap_os.Processes.Numbered.{Numbered-same}
use crap_os.Processes.Sound.{
  IsSystem, Listed, Owned, Owned-kept, All-map, add_process-IsSystem, kept, Spawned-IsSystem,
}
use crap_os.Processes.Spawn.{SpawnCases, refused}
use crap_os.Paging.AddressSpace.{AddressSpace}
use crap_os.Paging.{PageState}
use crap_os.Tasks.Ids.{TaskId, same_id}
use crap_os.Tasks.Outcome.{Outcome, done, ◌>>=◌}
use crap_os.Tasks.State.{SchedulerError, Task, Thread, active, task_table_full}
use crap_os.Tasks.Switch.Pick.{Queued}
use crap_os.Tasks.Table.{admitted, get_task}
use crap_os.Tasks.Table.Laws.{AllTaken}

-- The same processes, threads, tasks and pages: only ids are used up.
pub record Unchanged (s s' : System) : Type 0 where
  pub sound : IsSystem s'
  pub tasks : s'.kernel.tasks ≡ s.kernel.tasks
  pub ready_queue : s'.kernel.ready_queue ≡ s.kernel.ready_queue
  pub threads : (b : ℕ) → s'.kernel.threads b ≡ s.kernel.threads b
  pub store : (b : ℕ) → s'.store b ≡ s.store b
  pub processes : s'.processes ≡ s.processes
  pub pages : s'.pages ≡ s.pages

-- A new process at `p`, the last one of the list, with its main thread at `at`, whose task is the last
-- one of the ready queue.
pub record Created (p at : ℕ) (name : List ℕ) (space : AddressSpace) (task : Task)
    (ids : List TaskId) (s s' : System) (id : TaskId) : Type 0 where
  pub sound : IsSystem s'
  pub processes : s'.processes ≡ s.processes ++ p ∷ []
  pub store :
      (b : ℕ)
      → s'.store b ≡ (
          if b == p
          then some (record {
            id = s.next_process_id;
            name = name;
            address_space = space;
            threads = at ∷ [];
          })
          else s.store b)
  pub thread :
      s'.kernel.threads at
      ≡ some (record { id = s.next_thread_id; task_id = some id; state = active })
  pub fresh : get_task s.kernel.tasks id ≡ none
  pub finds :
      (other : TaskId)
      → get_task s'.kernel.tasks other
        ≡ (if same_id other id then some (admitted task id) else get_task s.kernel.tasks other)
  pub last : Queued s'.kernel.ready_queue (ids ++ id ∷ [])
  pub pages : s'.pages ≡ s.pages

abbrev pub CreateCases :
    ℕ
    → ℕ
    → List ℕ
    → AddressSpace
    → Task
    → List TaskId
    → System
    → Outcome (Result SchedulerError ℕ × System)
    → Type 0
CreateCases p at name space task ids s result =
    (AllTaken s.kernel.tasks
      × ((s' : System) × (result ≡ done (err task_table_full, s')) × Unchanged s s'))
    ⊎ ((id : TaskId) × (s' : System) × (result ≡ done (ok p, s'))
        × Created p at name space task ids s s' id)

-- What was put in a free place is taken out again.
taken_back :
    {A : Type 0} (f : ℕ → Option A) (p b : ℕ) (x : Option A)
    → f p ≡ none
    → update (update f p x) p none b ≡ f b
taken_back f p b x free = ground (arith, free)

list-IsSystem :
    (s : System) (p : ℕ)
    → IsSystem s
    → Listed s p
    → IsSystem (record s { processes = s.processes ++ p ∷ [] })
list-IsSystem s p h l =
    let copy : (q : ℕ) → Listed s q → Listed (record s { processes = s.processes ++ p ∷ [] }) q =
      λ q m. record { process = m.process; live = m.live; not_empty = m.not_empty } in
    let s' : System = record s { processes = s.processes ++ p ∷ [] } in
    record {
      owned = λ q proc e.
          All-map (Owned s q) (Owned s' q) proc.threads (λ b o. Owned-kept s s' q b o refl refl)
            (h.owned q proc e);
      listed =
          All-append (Listed s') s.processes (p ∷ [])
            (All-map (Listed s) (Listed s') s.processes copy h.listed) (copy p l, tt);
      process_ids = h.process_ids;
      thread_ids = h.thread_ids;
    }

pub paged-IsSystem :
    (pages : PageState) (s : System) → IsSystem s → IsSystem (record s { pages = pages })
paged-IsSystem pages s h =
    let s' : System = record s { pages = pages } in
    record {
      owned = λ q proc e.
          All-map (Owned s q) (Owned s' q) proc.threads (λ b o. Owned-kept s s' q b o refl refl)
            (h.owned q proc e);
      listed =
          All-map (Listed s) (Listed s') s.processes
            (λ q m. record { process = m.process; live = m.live; not_empty = m.not_empty })
            h.listed;
      process_ids = h.process_ids;
      thread_ids = h.thread_ids;
    }

-- Neither the thread nor the process stays when there is no slot.
abbrev dropped : ℕ → ℕ → List ℕ → AddressSpace → System → System
dropped p at name space s = put_process p none (refused p at main_name (add_process p name space s))

dropped-Unchanged :
    (p at : ℕ) (name : List ℕ) (space : AddressSpace) (s : System)
    → IsSystem s
    → s.store p ≡ none
    → s.kernel.threads at ≡ none
    → s.next_process_id + 1 < 2 ^ 64
    → s.next_thread_id + 1 < 2 ^ 64
    → Unchanged s (dropped p at name space s)
unfolding new_thread
dropped-Unchanged p at name space s h free_p free_at small_p small_t =
    let s' : System = dropped p at name space s in
    let store : (b : ℕ) → s'.store b ≡ s.store b = λ b. taken_back s.store p b _ free_p in
    let threads : (b : ℕ) → s'.kernel.threads b ≡ s.kernel.threads b =
      λ b. taken_back s.kernel.threads at b _ free_at in
    let old : (q b : ℕ) → Owned s q b → Owned s' q b =
      λ q b o. Owned-kept s s' q b o (threads b) (kept s.kernel.threads at b _ _ free_at o.live) in
    record {
      sound = record {
        owned = λ q proc e.
            All-map (Owned s q) (Owned s' q) proc.threads (old q)
              (h.owned q proc (sym (store q) ∙ e));
        listed =
            All-map (Listed s) (Listed s') s.processes
              (λ q l. record {
                process = l.process;
                live = store q ∙ l.live;
                not_empty = l.not_empty;
              })
              h.listed;
        process_ids =
            Numbered-same (λ (a : Process). a.id) s.next_process_id s'.next_process_id s.store
              s'.store h.process_ids (omega (arith, small_p)) store;
        thread_ids =
            Numbered-same (λ (t : Thread). t.id) s.next_thread_id s'.next_thread_id s.kernel.threads
              s'.kernel.threads h.thread_ids (omega (arith, small_t)) threads;
      };
      tasks = refl;
      ready_queue = refl;
      threads = threads;
      store = store;
      processes = refl;
      pages = refl;
    }

-- From a spawned main thread to the process that is listed.
pub register-cases :
    (p at : ℕ) (name : List ℕ) (space : AddressSpace) (task : Task) (frame : Frame)
    (ids : List TaskId) (s : System) (result : Outcome (Result SchedulerError ℕ × System))
    → IsSystem s
    → s.store p ≡ none
    → s.kernel.threads at ≡ none
    → s.next_process_id + 1 < 2 ^ 64
    → s.next_thread_id + 1 < 2 ^ 64
    → SpawnCases p at
        (record { id = s.next_process_id; name = name; address_space = space; threads = [] })
        main_name
        task
        frame
        ids
        (add_process p name space s)
        result
    → CreateCases p at name space task ids s (result >>= register p)
register-cases p at name space task frame ids s result h free_p free_at small_p small_t
      (inl (taken, e)) =
    inl (
      taken,
      (
        dropped p at name space s,
        rw e refl,
        dropped-Unchanged p at name space s h free_p free_at small_p small_t,
      ),
    )
register-cases p at name space task frame ids s result h free_p free_at small_p small_t
      (inr (id, s2, e, sp)) =
    let s1 : System = add_process p name space s in
    let made : Process = record {
      id = s.next_process_id;
      name = name;
      address_space = space;
      threads = [];
    } in
    let same : (p == p) ≡ true = ground arith in
    let here : (at == at) ≡ true = ground arith in
    let live : s1.store p ≡ some made = rw same refl in
    let sound1 = add_process-IsSystem p name space s h free_p small_p in
    let sound2 =
      Spawned-IsSystem p at made main_name task frame ids s1 id s2 sound1 live free_at small_t sp in
    let s3 : System = record s2 { processes = s2.processes ++ p ∷ [] } in
    inr (
      id,
      s3,
      rw e refl,
      record {
        sound = list-IsSystem s2 p sound2 (record {
          process = record made { threads = at ∷ [] };
          live = sp.store p ∙ (rw same refl);
          not_empty = omega arith;
        });
        processes = ap (λ xs. xs ++ p ∷ []) sp.processes;
        store = λ b.
            (sp.store b ∙ (elim (Bool-cases (b == p)) [ inl f ↦ rw f refl | inr f ↦ rw f refl ]));
        thread = sp.threads at ∙ (rw here refl);
        fresh = sp.fresh;
        finds = sp.finds;
        last = sp.last;
        pages = sp.pages;
      },
    )
