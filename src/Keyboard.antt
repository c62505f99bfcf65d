-- ===== src/Keyboard.antt =====
-- The keyboard (crap_os/src/hardware_manager/keyboard.rs): the scancodes of set 1, the modifier keys,
-- and the buffer between the interrupt handler and the keyboard task.
pub mod Letters
pub mod Buffer
use crap_os.Base.{
  ℕ, ◌+◌, ◌-◌, ◌^◌, ◌<◌, ◌≡◌, Bool, true, false, ◌&&◌, ◌||◌, not, Option, none, some, List, [], ◌∷◌,
  ltb, leb, ◌==◌, if◌then◌else◌, get_or,
}
use crap_os.Ring.{Ring, push, pop, empty_ring}
use crap_os.Tasks.Ids.{TaskId}
use crap_os.Tasks.Outcome.{Outcome, done, panic, no_fuel, ◌>>=◌}
use crap_os.Tasks.State.{Kernel}
use crap_os.Tasks.Wake.{wake}

pub record Modifiers : Type 0 where
  pub lshift_held : Bool
  pub rshift_held : Bool
  pub caps_active : Bool
  pub extended : Bool
  pub ctrl_held : Bool
  pub alt_held : Bool

abbrev pub unshifted : List ℕ
unshifted =
    0x00 ∷ 0x00 ∷ 0x31 ∷ 0x32 ∷ 0x33 ∷ 0x34 ∷ 0x35 ∷ 0x36 ∷ 0x37 ∷ 0x38 ∷ 0x39 ∷ 0x30 ∷ 0x2D ∷ 0x3D
    ∷ 0x08 ∷ 0x09 ∷ 0x71 ∷ 0x77 ∷ 0x65 ∷ 0x72 ∷ 0x74 ∷ 0x79 ∷ 0x75 ∷ 0x69 ∷ 0x6F ∷ 0x70 ∷ 0x5B
    ∷ 0x5D ∷ 0x0A ∷ 0x00 ∷ 0x61 ∷ 0x73 ∷ 0x64 ∷ 0x66 ∷ 0x67 ∷ 0x68 ∷ 0x6A ∷ 0x6B ∷ 0x6C ∷ 0x3B
    ∷ 0x27 ∷ 0x60 ∷ 0x00 ∷ 0x5C ∷ 0x7A ∷ 0x78 ∷ 0x63 ∷ 0x76 ∷ 0x62 ∷ 0x6E ∷ 0x6D ∷ 0x2C ∷ 0x2E
    ∷ 0x2F ∷ 0x00 ∷ 0x2A ∷ 0x00 ∷ 0x20 ∷ 0x00 ∷ 0x00 ∷ 0x00 ∷ 0x00 ∷ 0x00 ∷ 0x00 ∷ 0x00 ∷ 0x00
    ∷ 0x00 ∷ 0x00 ∷ 0x00 ∷ 0x00 ∷ 0x00 ∷ 0x37 ∷ 0x38 ∷ 0x39 ∷ 0x2D ∷ 0x34 ∷ 0x35 ∷ 0x36 ∷ 0x2B
    ∷ 0x31 ∷ 0x32 ∷ 0x33 ∷ 0x30 ∷ 0x2E ∷ []

abbrev pub shifted : List ℕ
shifted =
    0x00 ∷ 0x00 ∷ 0x21 ∷ 0x40 ∷ 0x23 ∷ 0x24 ∷ 0x25 ∷ 0x5E ∷ 0x26 ∷ 0x2A ∷ 0x28 ∷ 0x29 ∷ 0x5F ∷ 0x2B
    ∷ 0x08 ∷ 0x09 ∷ 0x51 ∷ 0x57 ∷ 0x45 ∷ 0x52 ∷ 0x54 ∷ 0x59 ∷ 0x55 ∷ 0x49 ∷ 0x4F ∷ 0x50 ∷ 0x7B
    ∷ 0x7D ∷ 0x0A ∷ 0x00 ∷ 0x41 ∷ 0x53 ∷ 0x44 ∷ 0x46 ∷ 0x47 ∷ 0x48 ∷ 0x4A ∷ 0x4B ∷ 0x4C ∷ 0x3A
    ∷ 0x22 ∷ 0x7E ∷ 0x00 ∷ 0x7C ∷ 0x5A ∷ 0x58 ∷ 0x43 ∷ 0x56 ∷ 0x42 ∷ 0x4E ∷ 0x4D ∷ 0x3C ∷ 0x3E
    ∷ 0x3F ∷ 0x00 ∷ 0x2A ∷ 0x00 ∷ 0x20 ∷ 0x00 ∷ 0x00 ∷ 0x00 ∷ 0x00 ∷ 0x00 ∷ 0x00 ∷ 0x00 ∷ 0x00
    ∷ 0x00 ∷ 0x00 ∷ 0x00 ∷ 0x00 ∷ 0x00 ∷ 0x37 ∷ 0x38 ∷ 0x39 ∷ 0x2D ∷ 0x34 ∷ 0x35 ∷ 0x36 ∷ 0x2B
    ∷ 0x31 ∷ 0x32 ∷ 0x33 ∷ 0x30 ∷ 0x2E ∷ []

-- Letters, digits and signs by their make code.
unfoldable pub char_of : Bool → ℕ → ℕ
char_of shift scancode = get_or (if shift then shifted else unshifted) scancode 0

abbrev pub is_ascii_alphabetic : ℕ → Bool
is_ascii_alphabetic c = (leb 0x41 c && leb c 0x5A) || (leb 0x61 c && leb c 0x7A)

-- The state after a byte that belongs to a modifier.
abbrev pub modifier : ℕ → Modifiers → Option Modifiers
modifier scancode m =
    if scancode == 0x2A
    then some (record m { lshift_held = true })
    else if scancode == 0x36
    then some (record m { rshift_held = true })
    else if scancode == 0xAA
    then some (record m { lshift_held = false })
    else if scancode == 0xB6
    then some (record m { rshift_held = false })
    else if scancode == 0x1D
    then some (record m { ctrl_held = true })
    else if scancode == 0x9D
    then some (record m { ctrl_held = false })
    else if scancode == 0x38
    then some (record m { alt_held = true })
    else if scancode == 0xB8
    then some (record m { alt_held = false })
    else if scancode == 0x3A
    then some (record m { caps_active = not m.caps_active })
    else none

-- What a byte of no modifier types.
abbrev pub typed : ℕ → Modifiers → Option ℕ
typed scancode m =
    let shift = m.lshift_held || m.rshift_held in
    let base_char = char_of shift scancode in
    if leb 0x80 scancode
    then none
    else if scancode == 0x01
    then some (if m.ctrl_held && m.alt_held then 0xFF else 0x1B)
    else if leb 0x54 scancode
    then none
    else if base_char == 0
    then none
    else if is_ascii_alphabetic base_char && m.caps_active
    then some (char_of (not shift) scancode)
    else some base_char

unfoldable pub process_scancode : ℕ → Modifiers → Option ℕ × Modifiers
process_scancode scancode m =
    if scancode == 0xE0
    then (none, record m { extended = true })
    else if m.extended
    then (none, record m { extended = false })
    else elim (modifier scancode m) [ some m' ↦ (none, m') | none ↦ (typed scancode m, m) ]

-- `SCANCODE_BUFFER` and `KEYBOARD_TASK_ID`.
pub record Keyboard : Type 0 where
  pub buffer : Ring ℕ
  pub task_id : Option TaskId

-- A full buffer drops the scancode.
unfoldable pub push_scancode : ℕ → Ring ℕ → Ring ℕ
push_scancode scancode b = elim (push 8 scancode b) [ none ↦ b | some b' ↦ b' ]

abbrev pub keyboard_set_task_id : TaskId → Keyboard → Keyboard
keyboard_set_task_id id kb = record kb { task_id = some id }

-- The scancode is stored before the task wakes. The answer of `wake` is dropped.
unfoldable pub keyboard_push_scancode : ℕ → Keyboard → Kernel → Outcome (Keyboard × Kernel)
keyboard_push_scancode scancode kb k =
    let kb' = record kb { buffer = push_scancode scancode kb.buffer } in
    elim kb.task_id [ none ↦ done (kb', k) | some id ↦ do (_, k') ← wake id k; done (kb', k') ]

unfoldable pub keyboard_pop_scancode : Keyboard → Option ℕ × Keyboard
keyboard_pop_scancode kb =
    let (scancode, b) = pop 8 kb.buffer in (scancode, record kb { buffer = b })
