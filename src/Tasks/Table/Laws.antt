-- ===== src/Tasks/Table/Laws.antt =====
-- What the operations on the task table do to a lookup.
use crap_os.Base.{
  ap₂, ◌↔◌, ◌&&◌, Result-cases, ℕ, suc, ◌+◌, ◌%◌, ◌^◌, ◌<◌, ◌≡◌, refl, ap, ◌∙◌, sym, true, none,
  some, List, [], ◌∷◌, Result, ok, err, ◌==◌, if◌then◌else◌, arith, get_elem?, set, length,
  length-set, get_elem?-set_self, get_elem?-set_ne, lt-length_of_get, Bool-cases, Option-cases, inl,
  inr, All,
}
use mathlib.Core.Path.{subst₂}
use crap_os.Tasks.Ids.{TaskId, task_id, same_id}
use crap_os.Tasks.State.{Task, TaskSlot, SchedulerError, task_table_full}
use crap_os.Tasks.Table.{
  is_some, admitted, passed, insert_from, insert_task, get_task, put_task, free_slot,
}

pub same_id→eq : (a b : TaskId) → same_id a b ≡ true → a ≡ b
same_id→eq a b h =
    let index : a.slot_index ≡ b.slot_index = ground arith in
    let generation : a.slot_generation ≡ b.slot_generation = ground arith in
    ap₂ task_id index generation

-- The place of an insertion: the first empty slot, `k` slots on.
record Placed (i : ℕ) (slots : List TaskSlot) (t : Task) (id : TaskId) (slots' : List TaskSlot)
    : Type 0 where
  k : ℕ
  slot : TaskSlot
  at : get_elem? slots k ≡ some slot
  free : slot.task ≡ none
  name : id ≡ task_id (i + k) slot.slot_generation
  result : slots' ≡ set slots k (record slot { task = some (admitted t id) })

Placed-later :
    (i : ℕ) (slot : TaskSlot) (slots : List TaskSlot) (t : Task) (id : TaskId)
    (slots' : List TaskSlot)
    → Placed (i + 1) slots t id slots'
    → Placed i (slot ∷ slots) t id (slot ∷ slots')
Placed-later i slot slots t id slots' p = record {
  k = suc p.k;
  slot = p.slot;
  at = p.at;
  free = p.free;
  name = p.name ∙ ap (λ n. task_id n p.slot.slot_generation) (omega arith);
  result = ap (λ (l : List TaskSlot). slot ∷ l) p.result;
}

ok_pair :
    {E A B : Type 0} {a c : A} {b d : B}
    → ◌≡◌ {A = Result E (A × B)} (ok (a, b)) (ok (c, d))
    → (a ≡ c) × (b ≡ d)
ok_pair h = (cc, cc)

insert_from-later :
    (i : ℕ) (slot : TaskSlot) (slots : List TaskSlot) (t : Task) {old : Task}
    {answer : TaskId × List TaskSlot}
    → slot.task ≡ some old
    → insert_from (i + 1) slots t ≡ ok answer
    → insert_from i (slot ∷ slots) t ≡ ok (answer.0, slot ∷ answer.1)
unfolding insert_from
insert_from-later i slot slots t {old} {answer} e e' =
    let full : is_some slot.task ≡ true = ap is_some e in rw (full, e', passed) refl

insert_from-Placed :
    (slots : List TaskSlot) (i : ℕ) (t : Task) (id : TaskId) (slots' : List TaskSlot)
    → insert_from i slots t ≡ ok (id, slots')
    → Placed i slots t id slots'
unfolding insert_from
insert_from-Placed [] i t id slots' h = cc
insert_from-Placed (slot ∷ slots) i t id slots' h = elim (Option-cases slot.task) [
  | inl e ↦
      let (name, result) = ok_pair (rw e at h) in
      record {
        k = 0;
        slot = slot;
        at = refl;
        free = e;
        name = sym name ∙ ap (λ n. task_id n slot.slot_generation) (omega arith);
        result = sym result ∙ ap (λ n. record slot { task = some (admitted t n) } ∷ slots) name;
      }
  | inr (old, e) ↦ elim (Result-cases (insert_from (i + 1) slots t)) [
    | inl (failure, e') ↦ cc (rw (e, e') at h)
    | inr ((found, rest), e') ↦
        let p =
          Placed-later i slot slots t found rest
            (insert_from-Placed slots (i + 1) t found rest e') in
        let (name, result) = ok_pair (sym (insert_from-later i slot slots t e e') ∙ h) in
        subst₂ (λ n l. Placed i (slot ∷ slots) t n l) name result p
  ]
]

-- Whether the slot of an id holds a task of its generation.
get_task_at :
    (slots : List TaskSlot) (id : TaskId) {slot : TaskSlot}
    → get_elem? slots id.slot_index ≡ some slot
    → get_task slots id ≡ (
        if (slot.slot_generation == id.slot_generation) && is_some slot.task
        then slot.task
        else none)
unfolding get_task
get_task_at slots id e = rw e

-- A task in the table stands in a slot of its id.
pub get_task-slot :
    (slots : List TaskSlot) (id : TaskId) {t : Task}
    → get_task slots id ≡ some t
    → (slot : TaskSlot) × (get_elem? slots id.slot_index ≡ some slot)
      × (slot.task ≡ some t)
      × (slot.slot_generation ≡ id.slot_generation)
unfolding get_task
get_task-slot slots id h = elim (Option-cases (get_elem? slots id.slot_index)) [
  | inl e ↦ cc (rw e at h)
  | inr (slot, e) ↦ (slot, e, ground arith, ground arith)
]

-- A lookup after one slot was overwritten.
get_task-set :
    (slots : List TaskSlot) (k : ℕ) (new : TaskSlot) (other : TaskId)
    → k < length slots
    → get_task (set slots k new) other ≡ (
        if other.slot_index == k
        then (if (new.slot_generation == other.slot_generation) && is_some new.task
            then new.task
            else none)
        else get_task slots other)
unfolding get_task
get_task-set slots k new other small =
    ground
      (arith, get_elem?-set_self slots k new small, get_elem?-set_ne slots k other.slot_index new)

put_task_at :
    (slots : List TaskSlot) (id : TaskId) (t : Task) {slot : TaskSlot}
    → get_elem? slots id.slot_index ≡ some slot
    → put_task slots id t ≡ set slots id.slot_index (record slot { task = some t })
unfolding put_task
put_task_at slots id t e = rw (e, put_task) refl

overwritten :
    (slots : List TaskSlot) (id other : TaskId) (t' : Task) (slot : TaskSlot)
    → get_elem? slots id.slot_index ≡ some slot
    → slot.slot_generation ≡ id.slot_generation
    → get_task (set slots id.slot_index (record slot { task = some t' })) other
      ≡ (if same_id other id then some t' else get_task slots other)
overwritten slots id other t' slot at generation =
    elim (Bool-cases (other.slot_index == id.slot_index)) [
      | inl e ↦
          let small = lt-length_of_get slots id.slot_index at in
          let same : other.slot_index ≡ id.slot_index = ground arith in
          ground (
            arith,
            get_task-set slots id.slot_index (record slot { task = some t' }) other small,
            get_task_at slots other (ap (get_elem? slots) same ∙ at),
            generation,
          )
      | inr e ↦
          let small = lt-length_of_get slots id.slot_index at in
          ground
            (arith, get_task-set slots id.slot_index (record slot { task = some t' }) other small)
    ]

-- A write through a reference is seen at its id and nowhere else.
pub get_task-put_task :
    (slots : List TaskSlot) (id other : TaskId) (t t' : Task)
    → get_task slots id ≡ some t
    → get_task (put_task slots id t') other
      ≡ (if same_id other id then some t' else get_task slots other)
get_task-put_task slots id other t t' h =
    let (slot, at, held, generation) = get_task-slot slots id h in
    rw (put_task_at slots id t' at) (overwritten slots id other t' slot at generation)

free_slot_at :
    (slots : List TaskSlot) (id : TaskId) {slot : TaskSlot}
    → get_elem? slots id.slot_index ≡ some slot
    → free_slot slots id
      ≡ set slots id.slot_index
          (record { task = none; slot_generation = (slot.slot_generation + 1) % 2 ^ 8 })
unfolding free_slot
free_slot_at slots id e = rw (e, free_slot) refl

-- The slot of an id that finds a task is freed. Then no id finds a task at its index, and every other
-- index is as it was.
pub get_task-free_slot :
    (slots : List TaskSlot) (id other : TaskId) (t : Task)
    → get_task slots id ≡ some t
    → get_task (free_slot slots id) other
      ≡ (if other.slot_index == id.slot_index then none else get_task slots other)
get_task-free_slot slots id other t h =
    let (slot, at, held, generation) = get_task-slot slots id h in
    let small = lt-length_of_get slots id.slot_index at in
    rw (free_slot_at slots id at) (
      ground (
        arith,
        get_task-set slots id.slot_index
            (record { task = none; slot_generation = (slot.slot_generation + 1) % 2 ^ 8 }) other
            small,
      ))

-- An insertion that succeeds: the id was free, it finds the task as it was admitted, no other id
-- finds another task than before, and no slot is added or lost.
pub insert_task-ok :
    (slots : List TaskSlot) (t : Task) (id : TaskId) (slots' : List TaskSlot)
    → insert_task t slots ≡ ok (id, slots')
    → (get_task slots id ≡ none)
      × (length slots' ≡ length slots)
      × ((other : TaskId)
          → get_task slots' other
            ≡ (if same_id other id then some (admitted t id) else get_task slots other))
unfolding insert_task
insert_task-ok slots t id slots' h =
    let p = insert_from-Placed slots 0 t id slots' h in
    let index : id.slot_index ≡ p.k = ap (λ (i : TaskId). i.slot_index) p.name ∙ omega arith in
    let generation : p.slot.slot_generation ≡ id.slot_generation =
      sym (ap (λ (i : TaskId). i.slot_generation) p.name) in
    let at : get_elem? slots id.slot_index ≡ some p.slot = ap (get_elem? slots) index ∙ p.at in
    (
      ground (arith, get_task_at slots id at, ap is_some p.free, p.free),
      ap length p.result ∙ length-set slots p.k _,
      λ other.
          ap (λ l. get_task l other)
            (p.result
              ∙ ap (λ n. set slots n (record p.slot { task = some (admitted t id) })) (sym index))
          ∙ overwritten slots id other (admitted t id) p.slot at generation,
    )

-- No slot is left.
abbrev pub AllTaken : List TaskSlot → Type 0
AllTaken slots = All (λ (slot : TaskSlot). is_some slot.task ≡ true) slots

full_table :
    (slots : List TaskSlot) (i : ℕ) (t : Task)
    → AllTaken slots
    → insert_from i slots t ≡ err task_table_full
unfolding insert_from
full_table [] i t h = refl
full_table (slot ∷ slots) i t h = rw (h.0, full_table slots (i + 1) t h.1) refl

table_full :
    (slots : List TaskSlot) (i : ℕ) (t : Task) (e : SchedulerError)
    → insert_from i slots t ≡ err e
    → AllTaken slots
unfolding insert_from
table_full [] i t e h = tt
table_full (slot ∷ slots) i t e h = elim (Bool-cases (is_some slot.task)) [
  | inl b ↦ elim (Result-cases (insert_from (i + 1) slots t)) [
    | inl (e', r) ↦ (b, table_full slots (i + 1) t e' r)
    | inr (a, r) ↦ ground (arith, b, r)
  ]
  | inr b ↦ ground (arith, b)
]

-- An error is that of a full table.
pub insert_task-err :
    (slots : List TaskSlot) (t : Task) (e : SchedulerError)
    → insert_task t slots ≡ err e
    → AllTaken slots × (insert_task t slots ≡ err task_table_full)
unfolding insert_task
insert_task-err slots t e h =
    let taken = table_full slots 0 t e h in (taken, full_table slots 0 t taken)

-- An insertion fails exactly when every slot holds a task.
pub insert_task-err_iff :
    (slots : List TaskSlot) (t : Task)
    → (insert_task t slots ≡ err task_table_full) ↔ AllTaken slots
unfolding insert_task
insert_task-err_iff slots t = (table_full slots 0 t task_table_full, full_table slots 0 t)
