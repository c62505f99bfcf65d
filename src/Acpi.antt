-- ===== src/Acpi.antt =====
-- The tables of the firmware (crap_os/src/hardware_manager/acpi.rs) and the CPUs that they list
-- (crap_os/src/processor_control/topology.rs). The memory gives the byte at a virtual address. A loop has fuel.
pub mod Cpus
pub mod Madt
pub mod Bytes
pub mod Layout
pub mod Search
use crap_os.Base.{
  length, eq_bytes, ℕ, zero, suc, Bool, false, not, Option, none, some, List, [], set, replicate,
  ltb, leb, ◌/◌, ◌+◌, ◌*◌, ◌%◌, ◌∷◌, ◌++◌, ◌&&◌, ◌||◌, ◌==◌, if◌then◌else◌,
}
use crap_os.Pages.{virt}
use crap_os.Tasks.Outcome.{Outcome, done, no_fuel, ◌>>=◌}

abbrev pub max_cpus : ℕ
max_cpus = 64

pub record CpuInfo : Type 0 where
  pub apic_id : ℕ
  pub acpi_uid : ℕ
  pub enabled : Bool
  pub online_capable : Bool

abbrev empty_cpu : CpuInfo
empty_cpu = record { apic_id = 0; acpi_uid = 0; enabled = false; online_capable = false }

pub record CpuTopology : Type 0 where
  pub bsp_apic_id : ℕ
  pub cpu_count : ℕ
  pub cpus : List CpuInfo

abbrev pub new_topology : CpuTopology
new_topology = record { bsp_apic_id = 0; cpu_count = 0; cpus = replicate max_cpus empty_cpu }

unfoldable pub push_cpu : CpuInfo → CpuTopology → CpuTopology
push_cpu cpu t =
    if ltb t.cpu_count max_cpus
    then record t { cpus = set t.cpus t.cpu_count cpu; cpu_count = t.cpu_count + 1 }
    else t

-- `cpus[..n]`
abbrev pub first {ℓ} : {A : Type ℓ} → ℕ → List A → List A
first zero xs = []
first (suc n) [] = []
first (suc n) (x ∷ xs) = x ∷ first n xs

-- `CpuTopology::iter`
unfoldable pub iter : CpuTopology → List CpuInfo
iter t = first t.cpu_count t.cpus

-- The first of the CPUs with the id, and those that may run.
abbrev pub find_apic_id : ℕ → List CpuInfo → Option CpuInfo
find_apic_id id [] = none
find_apic_id id (cpu ∷ cpus) = if cpu.apic_id == id then some cpu else find_apic_id id cpus

unfoldable pub bsp : CpuTopology → Option CpuInfo
unfolding iter
bsp t = find_apic_id t.bsp_apic_id (iter t)

abbrev pub usable : List CpuInfo → List CpuInfo
usable [] = []
usable (cpu ∷ cpus) =
    let rest = usable cpus in if cpu.enabled || cpu.online_capable then cpu ∷ rest else rest

unfoldable pub get_enabled_cpus : CpuTopology → List CpuInfo
unfolding iter
get_enabled_cpus t = usable (iter t)

unfoldable pub get_usable_cpu_count : CpuTopology → ℕ
unfolding get_enabled_cpus
get_usable_cpu_count t = length (get_enabled_cpus t)

-- A number of some bytes, the lowest first.
unfoldable pub read : ℕ → (ℕ → ℕ) → ℕ → ℕ
read zero mem at = 0
read (suc n) mem at = mem at + 256 * read n mem (at + 1)

abbrev pub sdt_header_size : ℕ
sdt_header_size = 36

abbrev pub length_at : (ℕ → ℕ) → ℕ → ℕ
length_at mem table = read 4 mem (table + 4)

abbrev pub signature_at : (ℕ → ℕ) → ℕ → List ℕ
signature_at mem table = mem table ∷ mem (table + 1) ∷ mem (table + 2) ∷ mem (table + 3) ∷ []

pub record ApicInfo : Type 0 where
  pub local_apic_phys : ℕ
  pub io_apic_phys : ℕ
  pub io_apic_gsi_base : ℕ

-- The variables of the loop of `parse_madt`.
pub record Found : Type 0 where
  pub io_apic_phys : ℕ
  pub io_apic_gsi_base : ℕ
  pub topology : CpuTopology

abbrev add_local_apic : (ℕ → ℕ) → ℕ → Found → Found
add_local_apic mem cursor f =
    let flags = read 4 mem (cursor + 4) in
    let enabled = flags % 2 == 1 in
    let online_capable = flags / 2 % 2 == 1 in
    let cpu : CpuInfo = record {
      apic_id = mem (cursor + 3);
      acpi_uid = mem (cursor + 2);
      enabled = enabled;
      online_capable = online_capable;
    } in
    if enabled || online_capable then record f { topology = push_cpu cpu f.topology } else f

abbrev add_io_apic : (ℕ → ℕ) → ℕ → Found → Found
add_io_apic mem cursor f =
    if f.io_apic_phys == 0
    then record f {
      io_apic_phys = read 4 mem (cursor + 4);
      io_apic_gsi_base = read 4 mem (cursor + 8);
    }
    else f

-- The `match` on the type of an entry.
unfoldable pub read_entry : (ℕ → ℕ) → ℕ → Found → Found
read_entry mem cursor f =
    if (mem cursor == 0) && leb 8 (mem (cursor + 1))
    then add_local_apic mem cursor f
    else if (mem cursor == 1) && leb 12 (mem (cursor + 1))
    then add_io_apic mem cursor f
    else f

unfoldable pub madt_loop : ℕ → (ℕ → ℕ) → ℕ → ℕ → Found → Outcome Found
madt_loop zero mem cursor end f = no_fuel
madt_loop (suc fuel) mem cursor end f =
    let rest = madt_loop fuel mem (cursor + mem (cursor + 1)) end (read_entry mem cursor f) in
    if ltb end (cursor + 2) then done f else if ltb (mem (cursor + 1)) 2 then done f else rest

unfoldable pub parse_madt : ℕ → (ℕ → ℕ) → ℕ → ℕ → Outcome (Option (ApicInfo × CpuTopology))
unfolding madt_loop
parse_madt fuel mem madt bsp_apic_id =
    let start : Found = record {
      io_apic_phys = 0;
      io_apic_gsi_base = 0;
      topology = record new_topology { bsp_apic_id = bsp_apic_id };
    } in
    madt_loop fuel mem (madt + sdt_header_size + 8) (madt + length_at mem madt) start >>= λ f.
    done (
      if f.io_apic_phys == 0
      then none
      else some (
        record {
          local_apic_phys = read 4 mem (madt + sdt_header_size);
          io_apic_phys = f.io_apic_phys;
          io_apic_gsi_base = f.io_apic_gsi_base;
        },
        f.topology,
      ))

-- The loop over the entries of the XSDT (of 8 bytes) or the RSDT (of 4 bytes).
unfoldable pub search_loop : ℕ → ℕ → Bool → (ℕ → ℕ) → List ℕ → ℕ → ℕ → Outcome (Option ℕ)
search_loop zero width higher mem sig ptr_addr end = no_fuel
search_loop (suc fuel) width higher mem sig ptr_addr end =
    let entry_phys = read width mem ptr_addr in
    let rest = search_loop fuel width higher mem sig (ptr_addr + width) end in
    if ltb end (ptr_addr + width)
    then done none
    else if entry_phys == 0
    then rest
    else if eq_bytes (signature_at mem (virt higher entry_phys)) sig
    then done (some (virt higher entry_phys))
    else rest

unfoldable pub find_table_in_xsdt : ℕ → Bool → (ℕ → ℕ) → ℕ → List ℕ → Outcome (Option ℕ)
find_table_in_xsdt fuel higher mem xsdt sig =
    search_loop fuel 8 higher mem sig (xsdt + sdt_header_size) (xsdt + length_at mem xsdt)

unfoldable pub find_table_in_rsdt : ℕ → Bool → (ℕ → ℕ) → ℕ → List ℕ → Outcome (Option ℕ)
find_table_in_rsdt fuel higher mem rsdt sig =
    search_loop fuel 4 higher mem sig (rsdt + sdt_header_size) (rsdt + length_at mem rsdt)

-- `RSD PTR `
abbrev pub rsdp_signature : List ℕ
rsdp_signature = b'R' ∷ b'S' ∷ b'D' ∷ b' ' ∷ b'P' ∷ b'T' ∷ b'R' ∷ b' ' ∷ []

unfoldable pub find_acpi_table : ℕ → Bool → (ℕ → ℕ) → ℕ → List ℕ → Outcome (Option ℕ)
unfolding find_table_in_xsdt find_table_in_rsdt
find_acpi_table fuel higher mem rsdp sig =
    let named = eq_bytes (signature_at mem rsdp ++ signature_at mem (rsdp + 4)) rsdp_signature in
    let xsdt_addr = read 8 mem (rsdp + 24) in
    if not named
    then done none
    else if leb 2 (mem (rsdp + 15)) && not (xsdt_addr == 0)
    then find_table_in_xsdt fuel higher mem (virt higher xsdt_addr) sig
    else find_table_in_rsdt fuel higher mem (virt higher (read 4 mem (rsdp + 16))) sig

-- `APIC`
abbrev pub madt_signature : List ℕ
madt_signature = b'A' ∷ b'P' ∷ b'I' ∷ b'C' ∷ []

abbrev parse_found : ℕ → (ℕ → ℕ) → ℕ → Option ℕ → Outcome (Option (ApicInfo × CpuTopology))
parse_found fuel mem bsp_apic_id none = done none
parse_found fuel mem bsp_apic_id (some madt) = parse_madt fuel mem madt bsp_apic_id

unfoldable pub parse_acpi : ℕ → Bool → (ℕ → ℕ) → ℕ → ℕ → Outcome (Option (ApicInfo × CpuTopology))
parse_acpi fuel higher mem rsdp bsp_apic_id =
    find_acpi_table fuel higher mem rsdp madt_signature >>= parse_found fuel mem bsp_apic_id
