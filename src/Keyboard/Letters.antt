-- ===== src/Keyboard/Letters.antt =====
-- What the keys of letters type.
use crap_os.Base.{
  ℕ, ◌+◌, ◌<◌, ◌≡◌, refl, Bool, true, false, ◌&&◌, ◌||◌, not, some, List, [], ◌∷◌, get_or, ltb,
  ◌==◌, if◌then◌else◌, arith, every_below, every_below_sound,
}
use crap_os.Keyboard.{char_of, process_scancode, Modifiers}

-- The make codes of the keys a to z in the scan code set 1, on an American keyboard.
abbrev pub letter_codes : List ℕ
letter_codes =
    0x1E ∷ 0x30 ∷ 0x2E ∷ 0x20 ∷ 0x12 ∷ 0x21 ∷ 0x22 ∷ 0x23 ∷ 0x17 ∷ 0x24 ∷ 0x25 ∷ 0x26 ∷ 0x32 ∷ 0x31
    ∷ 0x18 ∷ 0x19 ∷ 0x10 ∷ 0x13 ∷ 0x1F ∷ 0x14 ∷ 0x16 ∷ 0x2F ∷ 0x11 ∷ 0x2D ∷ 0x15 ∷ 0x2C ∷ []

abbrev xor : Bool → Bool → Bool
xor true b = not b
xor false b = b

-- The tables have the letter and its capital at this key, which is no modifier and no escape key.
abbrev letter_key : ℕ → Bool
letter_key i =
    let s = get_or letter_codes i 0 in
    (char_of false s == b'a' + i)
    && (char_of true s == b'A' + i)
    && ltb s 0x54
    && not ((s == 0x2A) || (s == 0x36) || (s == 0x1D) || (s == 0x38) || (s == 0x3A) || (s == 0x01))

letter_keys : every_below 26 letter_key ≡ true
unfolding every_below char_of
letter_keys = refl

-- Outside an extended sequence, the key of the `i`-th letter of the alphabet, by its code in the scan
-- code set 1, types the small letter, or its capital if either shift is held or caps lock is on, and not
-- both. No modifier changes.
pub process_scancode-letter :
    (i : ℕ) (m : Modifiers)
    → i < 26
    → m.extended ≡ false
    → process_scancode (get_or letter_codes i 0) m ≡ (
      some (if xor (m.lshift_held || m.rshift_held) m.caps_active then b'A' + i else b'a' + i),
      m,
    )
unfolding process_scancode
process_scancode-letter i m small plain =
    let key = every_below_sound 26 letter_key i letter_keys small in ground (arith, key)
