-- ===== src/Acpi/Madt.antt =====
-- The loop of `parse_madt` on any memory.
use mathlib.Core.Path.{subst}
use crap_os.Base.{
  Option, none, some, ◌≤◌, ◌≢◌, ℕ, zero, suc, refl, sym, inl, inr, true, [], arith, All, All-append,
  ltb, leb, Bool-cases, ◌/◌, ◌+◌, ◌*◌, ◌%◌, ◌<◌, ◌≡◌, ◌∷◌, ◌&&◌, ◌||◌, ◌==◌,
}
use crap_os.Acpi.{
  ApicInfo, CpuInfo, CpuTopology, Found, sdt_header_size, iter, length_at, madt_loop, max_cpus,
  new_topology, parse_madt, push_cpu, read, read_entry,
}
use crap_os.Acpi.Cpus.{IsTopology, iter-push_cpu, new_topology-IsTopology, push_cpu-IsTopology}
use crap_os.Tasks.Outcome.{Ends}

abbrev pub IsUsable : CpuInfo → Type 0
IsUsable cpu = (cpu.enabled || cpu.online_capable) ≡ true

-- What the loop keeps: at most 64 CPUs, each of which may run, and the id of the boot CPU.
pub record IsFound (bsp : ℕ) (f : Found) : Type 0 where
  pub topology : IsTopology f.topology
  pub may_run : All IsUsable (iter f.topology)
  pub boot : f.topology.bsp_apic_id ≡ bsp

push_cpu-IsFound :
    (bsp : ℕ) (cpu : CpuInfo) (f : Found)
    → IsUsable cpu
    → IsFound bsp f
    → IsFound bsp (record f { topology = push_cpu cpu f.topology })
push_cpu-IsFound bsp cpu f ok_cpu h =
    let e = iter-push_cpu cpu f.topology h.topology in
    record {
      topology = push_cpu-IsTopology cpu f.topology h.topology;
      may_run =
          subst (All IsUsable) (sym e) (elim (Bool-cases (ltb f.topology.cpu_count max_cpus)) [
            | inl g ↦ rw g (All-append IsUsable (iter f.topology) (cpu ∷ []) h.may_run (ok_cpu, tt))
            | inr g ↦ rw g h.may_run
          ]);
      boot =
          (unfold push_cpu in
            (elim (Bool-cases (ltb f.topology.cpu_count max_cpus)) [
              | inl g ↦ rw g h.boot
              | inr g ↦ rw g h.boot
            ]));
    }

read_entry-IsFound :
    (mem : ℕ → ℕ) (bsp cursor : ℕ) (f : Found)
    → IsFound bsp f
    → IsFound bsp (read_entry mem cursor f)
unfolding read_entry
read_entry-IsFound mem bsp cursor f h =
    elim (Bool-cases ((mem cursor == 0) && leb 8 (mem (cursor + 1)))) [
      | inl a ↦
          let flags = read 4 mem (cursor + 4) in
          (elim (Bool-cases ((flags % 2 == 1) || (flags / 2 % 2 == 1))) [
            | inl b ↦ rw (a, b) (push_cpu-IsFound bsp _ f b h)
            | inr b ↦ rw (a, b) h
          ])
      | inr a ↦ elim (Bool-cases ((mem cursor == 1) && leb 12 (mem (cursor + 1)))) [
        | inr b ↦ rw (a, b) h
        | inl b ↦ elim (Bool-cases (f.io_apic_phys == 0)) [
          | inl c ↦
              rw (a, b, c) (record { topology = h.topology; may_run = h.may_run; boot = h.boot })
          | inr c ↦ rw (a, b, c) h
        ]
      ]
    ]

-- Every round that goes on gets two bytes further at least.
madt_loop-Ends :
    (fuel : ℕ) (mem : ℕ → ℕ) (bsp cursor end : ℕ) (f : Found)
    → end < cursor + 2 * fuel
    → 0 < fuel
    → IsFound bsp f
    → Ends (IsFound bsp) (madt_loop fuel mem cursor end f)
unfolding madt_loop
madt_loop-Ends zero mem bsp cursor end f enough some_fuel h = absurd (omega (arith, some_fuel))
madt_loop-Ends (suc fuel) mem bsp cursor end f enough some_fuel h =
    elim (Bool-cases (ltb end (cursor + 2))) [
      | inl a ↦ (f, rw a refl, h)
      | inr a ↦ elim (Bool-cases (ltb (mem (cursor + 1)) 2)) [
        | inl b ↦ (f, rw (a, b) refl, h)
        | inr b ↦
            let (g, e, h') =
              madt_loop-Ends fuel mem bsp (cursor + mem (cursor + 1)) end (read_entry mem cursor f)
                (ground arith) (ground arith) (read_entry-IsFound mem bsp cursor f h) in
            (g, rw (a, b) e, h')
      ]
    ]

-- What a parsed table says: the id of the boot CPU is the one given, and there are at most 64 CPUs, each
-- of which is enabled or may come online, and the address of the I/O APIC is not zero.
abbrev pub IsParsed : ℕ → Option (ApicInfo × CpuTopology) → Type 0
IsParsed bsp none = Unit
IsParsed bsp (some (info, t)) =
    (info.io_apic_phys ≢ 0)
    × (t.bsp_apic_id ≡ bsp)
    × (t.cpu_count ≤ max_cpus)
    × All IsUsable (iter t)

-- With fuel for every second byte of the table, `parse_madt` returns on any memory. It gives nothing, or
-- an I/O APIC whose address is not zero and at most 64 CPUs, each of which is enabled or may come online.
pub parse_madt-Ends :
    (fuel : ℕ) (mem : ℕ → ℕ) (madt bsp : ℕ)
    → length_at mem madt < 2 * fuel
    → Ends (IsParsed bsp) (parse_madt fuel mem madt bsp)
unfolding parse_madt
parse_madt-Ends fuel mem madt bsp enough =
    let start : Found = record {
      io_apic_phys = 0;
      io_apic_gsi_base = 0;
      topology = record new_topology { bsp_apic_id = bsp };
    } in
    let (f, e, h) =
      madt_loop-Ends fuel mem bsp (madt + sdt_header_size + 8) (madt + length_at mem madt) start
        (omega arith) (omega arith)
        (record {
          topology = new_topology-IsTopology bsp;
          may_run = (unfold iter in tt);
          boot = refl;
        }) in
    elim (Bool-cases (f.io_apic_phys == 0)) [
      | inl a ↦ (none, rw e (rw a refl), tt)
      | inr a ↦ (
        some (
          record {
            local_apic_phys = read 4 mem (madt + sdt_header_size);
            io_apic_phys = f.io_apic_phys;
            io_apic_gsi_base = f.io_apic_gsi_base;
          },
          f.topology,
        ),
        rw e (rw a refl),
        (ground arith, h.boot, h.topology.count, h.may_run),
      )
    ]
