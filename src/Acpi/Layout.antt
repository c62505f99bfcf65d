-- ===== src/Acpi/Layout.antt =====
-- A MADT that is laid out as the specification of ACPI says, and what `parse_madt` reads of it.
use crap_os.Base.{
  ap₂, inl, inr, Option, none, some, Bool-cases, refl, ap, true, false, All, length-append, ltb,
  leb, ◌&&◌, ◌∙◌, ℕ, zero, suc, List, [], arith, length, ◌/◌, ◌+◌, ◌%◌, ◌^◌, ◌<◌, ◌≡◌, ◌∷◌, ◌++◌,
  ◌||◌, ◌==◌, if◌then◌else◌,
}
use crap_os.Acpi.{
  ApicInfo, CpuInfo, CpuTopology, Found, first, sdt_header_size, iter, length_at, madt_loop,
  max_cpus, new_topology, parse_madt, push_cpu, read, read_entry, usable,
}
use crap_os.Acpi.Cpus.{iter-push_all, new_topology-IsTopology, push_all}
use crap_os.Blake.{le_bytes}
use crap_os.Blake.Lengths.{length-le_bytes}
use crap_os.Tasks.Outcome.{done}
use crap_os.Acpi.Bytes.{Holds, Holds-append, past_four, read-le_bytes}

-- An entry: a local APIC, an I/O APIC, or another type. The first two may have more bytes behind them.
pub data Entry : Type 0 where
  local_apic : (acpi_uid apic_id flags : ℕ) (pad : List ℕ) → Entry
  io_apic : (id reserved addr gsi_base : ℕ) (pad : List ℕ) → Entry
  other : (kind : ℕ) (body : List ℕ) → Entry

abbrev pub bytes_of : Entry → List ℕ
bytes_of (local_apic uid id flags pad) = 0 ∷ (8 + length pad) ∷ uid ∷ id ∷ (le_bytes 4 flags ++ pad)
bytes_of (io_apic id reserved addr gsi pad) =
    1 ∷ (12 + length pad) ∷ id ∷ reserved ∷ (le_bytes 4 addr ++ (le_bytes 4 gsi ++ pad))
bytes_of (other kind body) = kind ∷ (2 + length body) ∷ body

-- The numbers of an entry fit in their fields.
abbrev pub IsEntry : Entry → Type 0
IsEntry (local_apic uid id flags pad) = flags < 2 ^ 32
IsEntry (io_apic id reserved addr gsi pad) = (addr < 2 ^ 32) × (gsi < 2 ^ 32)
IsEntry (other kind body) = 1 < kind

abbrev pub all_bytes_of : List Entry → List ℕ
all_bytes_of [] = []
all_bytes_of (e ∷ es) = bytes_of e ++ all_bytes_of es

-- What an entry adds.
abbrev pub cpu_of : ℕ → ℕ → ℕ → CpuInfo
cpu_of uid id flags = record {
  apic_id = id;
  acpi_uid = uid;
  enabled = flags % 2 == 1;
  online_capable = flags / 2 % 2 == 1;
}

abbrev pub cpus_of : List Entry → List CpuInfo
cpus_of [] = []
cpus_of (local_apic uid id flags pad ∷ es) = cpu_of uid id flags ∷ cpus_of es
cpus_of (io_apic id reserved addr gsi pad ∷ es) = cpus_of es
cpus_of (other kind body ∷ es) = cpus_of es

-- The I/O APIC: the first one with an address other than zero, or the last one with address zero.
abbrev pub io_of : ℕ × ℕ → List Entry → ℕ × ℕ
io_of io [] = io
io_of io (local_apic uid id flags pad ∷ es) = io_of io es
io_of io (io_apic id reserved addr gsi pad ∷ es) = io_of (if io.0 == 0 then (addr, gsi) else io) es
io_of io (other kind body ∷ es) = io_of io es

abbrev absorb : Entry → Found → Found
absorb (local_apic uid id flags pad) f =
    if (flags % 2 == 1) || (flags / 2 % 2 == 1)
    then record f { topology = push_cpu (cpu_of uid id flags) f.topology }
    else f
absorb (io_apic id reserved addr gsi pad) f =
    if f.io_apic_phys == 0 then record f { io_apic_phys = addr; io_apic_gsi_base = gsi } else f
absorb (other kind body) f = f

read_entry-absorb :
    (mem : ℕ → ℕ) (cursor : ℕ) (e : Entry) (f : Found)
    → IsEntry e
    → Holds mem cursor (bytes_of e)
    → (read_entry mem cursor f ≡ absorb e f)
      × (mem (cursor + 1) ≡ length (bytes_of e))
      × (1 < mem (cursor + 1))
unfolding read_entry
read_entry-absorb mem cursor (local_apic uid id flags pad) f ok_e (k, (l, (u, (i, rest)))) =
    let at_uid : cursor + 2 ≡ cursor + 1 + 1 = omega arith in
    let at_id : cursor + 3 ≡ cursor + 1 + 1 + 1 = omega arith in
    let wide : ((mem cursor == 0) && leb 8 (mem (cursor + 1))) ≡ true = ground (arith, k, l) in
    let flags_read =
      read-le_bytes 4 mem (cursor + 4) flags ok_e
        (Holds-append mem (cursor + 4) (le_bytes 4 flags) pad (past_four mem cursor _ rest)).0 in
    let size = length-append (le_bytes 4 flags) pad in
    (
      rw (wide, flags_read, ap mem at_uid ∙ u, ap mem at_id ∙ i) refl,
      omega (arith, l, size, length-le_bytes 4 flags),
      omega (arith, l),
    )
read_entry-absorb mem cursor (io_apic id reserved addr gsi pad) f (small, small')
      (k, (l, (i, (r, rest)))) =
    let narrow : ((mem cursor == 0) && leb 8 (mem (cursor + 1))) ≡ false = ground (arith, k, l) in
    let wide : ((mem cursor == 1) && leb 12 (mem (cursor + 1))) ≡ true = ground (arith, k, l) in
    let (left, right) =
      Holds-append mem (cursor + 4) (le_bytes 4 addr) (le_bytes 4 gsi ++ pad)
        (past_four mem cursor _ rest) in
    let at_gsi : cursor + 4 + length (le_bytes 4 addr) ≡ cursor + 8 =
      omega (arith, length-le_bytes 4 addr) in
    let addr_read = read-le_bytes 4 mem (cursor + 4) addr small left in
    let gsi_read =
      read-le_bytes 4 mem (cursor + 8) gsi small'
        (Holds-append mem (cursor + 8) (le_bytes 4 gsi) pad (rw at_gsi at right)).0 in
    let size = length-append (le_bytes 4 addr) (le_bytes 4 gsi ++ pad) in
    let size' = length-append (le_bytes 4 gsi) pad in
    (
      rw (narrow, wide, addr_read, gsi_read) refl,
      omega (arith, l, size, size', length-le_bytes 4 addr, length-le_bytes 4 gsi),
      omega (arith, l),
    )
read_entry-absorb mem cursor (other kind body) f large (k, (l, rest)) =
    let neither : ((mem cursor == 0) && leb 8 (mem (cursor + 1))) ≡ false =
      ground (arith, k, large) in
    let neither' : ((mem cursor == 1) && leb 12 (mem (cursor + 1))) ≡ false =
      ground (arith, k, large) in
    (rw (neither, neither') refl, omega (arith, l), omega (arith, l))

abbrev absorb_all : List Entry → Found → Found
absorb_all [] f = f
absorb_all (e ∷ es) f = absorb_all es (absorb e f)

-- The loop reads the entries one after the other, and no byte behind them.
madt_loop-absorb_all :
    (es : List Entry) (fuel : ℕ) (mem : ℕ → ℕ) (cursor : ℕ) (f : Found)
    → All IsEntry es
    → length es < fuel
    → Holds mem cursor (all_bytes_of es)
    → madt_loop fuel mem cursor (cursor + length (all_bytes_of es)) f ≡ done (absorb_all es f)
unfolding madt_loop
madt_loop-absorb_all es zero mem cursor f ok_es enough h = absurd (omega (arith, enough))
madt_loop-absorb_all [] (suc fuel) mem cursor f ok_es enough h =
    let at_end : ltb (cursor + 0) (cursor + 2) ≡ true = ground arith in rw at_end refl
madt_loop-absorb_all (e ∷ es) (suc fuel) mem cursor f (ok_e, ok_es) enough h =
    let (left, right) = Holds-append mem cursor (bytes_of e) (all_bytes_of es) h in
    let (same, size, two) = read_entry-absorb mem cursor e f ok_e left in
    let total = length-append (bytes_of e) (all_bytes_of es) in
    let inside : ltb (cursor + length (bytes_of e ++ all_bytes_of es)) (cursor + 2) ≡ false =
      ground (arith, total, size, two) in
    let long : ltb (mem (cursor + 1)) 2 ≡ false = ground (arith, two) in
    let next : cursor + length (bytes_of e ++ all_bytes_of es)
        ≡ cursor + length (bytes_of e) + length (all_bytes_of es) =
      omega (arith, total) in
    let ih =
      madt_loop-absorb_all es fuel mem (cursor + length (bytes_of e)) (absorb e f) ok_es
        (omega (arith, enough)) right in
    rw (inside, long, same, size, next) ih

-- What the entries add up to.
absorb_all-topology :
    (es : List Entry) (f : Found)
    → (absorb_all es f).topology ≡ push_all (usable (cpus_of es)) f.topology
absorb_all-topology [] f = refl
absorb_all-topology (local_apic uid id flags pad ∷ es) f =
    elim (Bool-cases ((flags % 2 == 1) || (flags / 2 % 2 == 1))) [
      | inl e ↦
          rw (e, absorb_all)
            (absorb_all-topology es
              (record f { topology = push_cpu (cpu_of uid id flags) f.topology }))
      | inr e ↦ rw (e, absorb_all) (absorb_all-topology es f)
    ]
absorb_all-topology (io_apic id reserved addr gsi pad ∷ es) f =
    elim (Bool-cases (f.io_apic_phys == 0)) [
      | inl e ↦
          rw (e, absorb_all)
            (absorb_all-topology es (record f { io_apic_phys = addr; io_apic_gsi_base = gsi }))
      | inr e ↦ rw (e, absorb_all) (absorb_all-topology es f)
    ]
absorb_all-topology (other kind body ∷ es) f = absorb_all-topology es f

abbrev io_found : Found → ℕ × ℕ
io_found f = (f.io_apic_phys, f.io_apic_gsi_base)

absorb_all-io : (es : List Entry) (f : Found) → io_found (absorb_all es f) ≡ io_of (io_found f) es
absorb_all-io [] f = refl
absorb_all-io (local_apic uid id flags pad ∷ es) f =
    elim (Bool-cases ((flags % 2 == 1) || (flags / 2 % 2 == 1))) [
      | inl e ↦
          rw (e, absorb_all)
            (absorb_all-io es (record f { topology = push_cpu (cpu_of uid id flags) f.topology }))
      | inr e ↦ rw (e, absorb_all) (absorb_all-io es f)
    ]
absorb_all-io (io_apic id reserved addr gsi pad ∷ es) f = elim (Bool-cases (f.io_apic_phys == 0)) [
  | inl e ↦
      rw (e, absorb_all)
        (absorb_all-io es (record f { io_apic_phys = addr; io_apic_gsi_base = gsi }))
  | inr e ↦ rw (e, absorb_all) (absorb_all-io es f)
]
absorb_all-io (other kind body ∷ es) f = absorb_all-io es f

abbrev pub parsed : (ℕ → ℕ) → ℕ → ℕ × ℕ → CpuTopology → Option (ApicInfo × CpuTopology)
parsed mem madt io t =
    if io.0 == 0
    then none
    else some (
      record {
        local_apic_phys = read 4 mem (madt + sdt_header_size);
        io_apic_phys = io.0;
        io_apic_gsi_base = io.1;
      },
      t,
    )

push_cpu-bsp : (cpu : CpuInfo) (t : CpuTopology) → (push_cpu cpu t).bsp_apic_id ≡ t.bsp_apic_id
unfolding push_cpu
push_cpu-bsp cpu t = elim (Bool-cases (ltb t.cpu_count max_cpus)) [
  | inl e ↦ rw e refl
  | inr e ↦ rw e refl
]

push_all-bsp :
    (cpus : List CpuInfo) (t : CpuTopology) → (push_all cpus t).bsp_apic_id ≡ t.bsp_apic_id
push_all-bsp [] t = refl
push_all-bsp (cpu ∷ cpus) t = push_all-bsp cpus (push_cpu cpu t) ∙ push_cpu-bsp cpu t

-- The memory holds a MADT: its length, and behind the two headers its entries, whose numbers fit in
-- their fields. With fuel for each entry, `parse_madt` returns. The CPUs are those of the entries that are
-- enabled or may come online, in their order, and the first 64 if there are more. The I/O APIC is the
-- first one whose address is not zero. Without one there is no result.
pub parse_madt-entries :
    (fuel : ℕ) (mem : ℕ → ℕ) (madt bsp : ℕ) (es : List Entry)
    → All IsEntry es
    → length es < fuel
    → length_at mem madt ≡ sdt_header_size + 8 + length (all_bytes_of es)
    → Holds mem (madt + sdt_header_size + 8) (all_bytes_of es)
    → (t : CpuTopology) × (iter t ≡ first max_cpus (usable (cpus_of es)))
      × (t.bsp_apic_id ≡ bsp)
      × (parse_madt fuel mem madt bsp ≡ done (parsed mem madt (io_of (0, 0) es) t))
unfolding parse_madt
parse_madt-entries fuel mem madt bsp es ok_es enough size h =
    let start : CpuTopology = record new_topology { bsp_apic_id = bsp } in
    let f : Found = record { io_apic_phys = 0; io_apic_gsi_base = 0; topology = start } in
    let end : madt + length_at mem madt ≡ madt + sdt_header_size + 8 + length (all_bytes_of es) =
      omega (arith, size) in
    let run = madt_loop-absorb_all es fuel mem (madt + sdt_header_size + 8) f ok_es enough h in
    let topology = absorb_all-topology es f in
    let io = absorb_all-io es f in
    let t = push_all (usable (cpus_of es)) start in
    (
      t,
      iter-push_all (usable (cpus_of es)) start (new_topology-IsTopology bsp)
          ∙ (unfold iter in refl),
      push_all-bsp (usable (cpus_of es)) start,
      rw (end, run) (ap₂ (λ x y. done (parsed mem madt x y)) io topology),
    )
