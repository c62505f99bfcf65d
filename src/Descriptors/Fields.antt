-- ===== src/Descriptors/Fields.antt =====
-- What the processor reads in the descriptors that the kernel writes.
use crap_os.Base.{ℕ, bit_or, arith, ◌/◌, ◌+◌, ◌*◌, ◌%◌, ◌^◌, ◌<◌, ◌≡◌, ◌∙◌}
use crap_os.Base.Bits.{and_mask, bit_or_comm, or_shifted}
use crap_os.Descriptors.{IdtEntry, interrupt_gate, trap_gate, tss_high, tss_low}

or_above : (w lo hi : ℕ) → lo < 2 ^ w → bit_or lo (hi * 2 ^ w) ≡ lo + hi * 2 ^ w
or_above w lo hi h = bit_or_comm lo (hi * 2 ^ w) ∙ or_shifted w hi lo h ∙ omega arith

-- The fields of the lower half of a TSS descriptor are added up.
tss_low-sum :
    (base limit : ℕ)
    → tss_low base limit
      ≡ limit % 2 ^ 16
        + base % 2 ^ 24 * 2 ^ 16
        + 9 * 2 ^ 40
        + 2 ^ 47
        + limit / 2 ^ 16 % 16 * 2 ^ 48
        + base / 2 ^ 24 % 256 * 2 ^ 56
unfolding tss_low
tss_low-sum base limit =
    let a = limit % 2 ^ 16 in
    let b = base % 2 ^ 24 in
    rw
      (
        and_mask 16 limit,
        and_mask 4 (limit / 2 ^ 16),
        and_mask 24 base,
        and_mask 8 (base / 2 ^ 24),
        or_above 16 a b (omega arith),
        or_above 40 (a + b * 2 ^ 16) 9 (omega arith),
        or_above 47 (a + b * 2 ^ 16 + 9 * 2 ^ 40) 1 (omega arith),
        or_above 48 (a + b * 2 ^ 16 + 9 * 2 ^ 40 + 1 * 2 ^ 47) (limit / 2 ^ 16 % 16) (omega arith),
        or_above 56 (a + b * 2 ^ 16 + 9 * 2 ^ 40 + 1 * 2 ^ 47 + limit / 2 ^ 16 % 16 * 2 ^ 48)
            (base / 2 ^ 24 % 256) (omega arith),
      )
      (omega arith)

-- The base, the limit, the type with the S bit, and the bits of privilege and presence of a system descriptor.
abbrev pub base_of : ℕ → ℕ → ℕ
base_of low high = low / 2 ^ 16 % 2 ^ 24 + low / 2 ^ 56 % 2 ^ 8 * 2 ^ 24 + high % 2 ^ 32 * 2 ^ 32

abbrev pub limit_of : ℕ → ℕ
limit_of low = low % 2 ^ 16 + low / 2 ^ 48 % 2 ^ 4 * 2 ^ 16

abbrev pub access_of : ℕ → ℕ
access_of low = low / 2 ^ 40 % 2 ^ 8

-- From the two halves of a TSS descriptor for a 64-bit base and a 20-bit limit, the processor reads
-- this base and this limit, and that it is a present and available 64-bit TSS of ring 0.
pub tss_descriptor-fields :
    (base limit : ℕ)
    → base < 2 ^ 64
    → limit < 2 ^ 20
    → (base_of (tss_low base limit) (tss_high base) ≡ base)
      × (limit_of (tss_low base limit) ≡ limit)
      × (access_of (tss_low base limit) ≡ 0x89)
tss_descriptor-fields base limit hb hl =
    rw (tss_low-sum base limit) (omega arith, omega arith, omega arith)

-- The handler that a gate leads to.
abbrev pub offset_of : IdtEntry → ℕ
offset_of e = e.offset_low + e.offset_mid * 2 ^ 16 + e.offset_high * 2 ^ 32

pub interrupt_gate-offset : (handler ist : ℕ) → offset_of (interrupt_gate handler ist) ≡ handler
unfolding interrupt_gate
interrupt_gate-offset handler ist =
    rw (and_mask 16 handler, and_mask 16 (handler / 2 ^ 16)) (omega arith)

pub trap_gate-offset : (handler ist : ℕ) → offset_of (trap_gate handler ist) ≡ handler
unfolding trap_gate
trap_gate-offset handler ist =
    rw (and_mask 16 handler, and_mask 16 (handler / 2 ^ 16)) (omega arith)
