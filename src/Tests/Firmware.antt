-- ===== src/Tests/Firmware.antt =====
-- The tables of the firmware and of the processor, and the random numbers, at concrete inputs.
use crap_os.Base.{
  ℕ, refl, true, false, none, some, List, [], arith, length, get_elem?, get_or, replicate, ◌+◌, ◌*◌,
  ◌%◌, ◌<◌, ◌≡◌, ◌∷◌, ◌++◌, ◌==◌, if◌then◌else◌,
}
use crap_os.Acpi.{
  find_acpi_table, iter, sdt_header_size, length_at, madt_signature, max_cpus, first, parse_madt,
  read, usable, rsdp_signature,
}
use crap_os.Acpi.Bytes.{Holds}
use crap_os.Acpi.Layout.{
  Entry, all_bytes_of, cpus_of, io_apic, io_of, local_apic, other, parse_madt-entries, parsed,
}
use crap_os.Acpi.Madt.{IsParsed, parse_madt-Ends}
use crap_os.Acpi.Search.{IsTable, find_acpi_table-lookup, lookup, root_table}
use crap_os.Acpi.{CpuTopology}
use crap_os.Blake.{le_bytes}
use crap_os.Descriptors.{IdtEntry, Stubs, blank_idt, init_idt, tss_high, tss_low}
use crap_os.Descriptors.Fields.{access_of, base_of, limit_of, tss_descriptor-fields}
use crap_os.Descriptors.Vectors.{LeadsTo, attr_of, init_idt-LeadsTo, stack_of, stub_of}
use crap_os.Rng.{CpuRngState, Hardware, get_pseudo_random_bytes}
use crap_os.Blake.{all_bytes, take}
use crap_os.Rng.Pseudo.{Xoshiro, after, four, get_pseudo_random_bytes-outputs, outputs}
use crap_os.Tasks.Outcome.{Ends, done}

abbrev some_entries : List Entry
some_entries =
    local_apic 0 0 1 []
    ∷ other 4 (0 ∷ 0 ∷ [])
    ∷ local_apic 1 2 0 []
    ∷ io_apic 1 0 0xfec00000 0 []
    ∷ []

-- A table of 44 bytes before its entries, of which the length is not zero.
abbrev madt_bytes : List ℕ
madt_bytes =
    (b'A' ∷ b'P' ∷ b'I' ∷ b'C' ∷ 76 ∷ 0 ∷ 0 ∷ 0 ∷ [])
    ++ (replicate 36 0 ++ all_bytes_of some_entries)

abbrev madt_memory : ℕ → ℕ
madt_memory at = get_or madt_bytes at 0

madt_size : length_at madt_memory 0 ≡ sdt_header_size + 8 + length (all_bytes_of some_entries)
unfolding read le_bytes
madt_size = refl

madt_Holds : Holds madt_memory (0 + sdt_header_size + 8) (all_bytes_of some_entries)
unfolding le_bytes
madt_Holds = (
  refl,
  (
    refl,
    (
      refl,
      (
        refl,
        (
          refl,
          (
            refl,
            (
              refl,
              (
                refl,
                (
                  refl,
                  (
                    refl,
                    (
                      refl,
                      (
                        refl,
                        (
                          refl,
                          (
                            refl,
                            (
                              refl,
                              (
                                refl,
                                (
                                  refl,
                                  (
                                    refl,
                                    (
                                      refl,
                                      (
                                        refl,
                                        (
                                          refl,
                                          (
                                            refl,
                                            (
                                              refl,
                                              (
                                                refl,
                                                (
                                                  refl,
                                                  (
                                                    refl,
                                                    (
                                                      refl,
                                                      (refl, (refl, (refl, (refl, (refl, tt))))),
                                                    ),
                                                  ),
                                                ),
                                              ),
                                            ),
                                          ),
                                        ),
                                      ),
                                    ),
                                  ),
                                ),
                              ),
                            ),
                          ),
                        ),
                      ),
                    ),
                  ),
                ),
              ),
            ),
          ),
        ),
      ),
    ),
  ),
)

parse_madt-entries_example :
    (t : CpuTopology) × (iter t ≡ first max_cpus (usable (cpus_of some_entries)))
    × (t.bsp_apic_id ≡ 0)
    × (parse_madt 5 madt_memory 0 0 ≡ done (parsed madt_memory 0 (io_of (0, 0) some_entries) t))
parse_madt-entries_example =
    parse_madt-entries 5 madt_memory 0 0 some_entries
      (omega arith, (omega arith, (omega arith, ((omega arith, omega arith), tt)))) (omega arith)
      madt_size madt_Holds

madt_fuel : length_at madt_memory 0 < 2 * 39
unfolding read
madt_fuel = omega arith

parse_madt-Ends_example : Ends (IsParsed 0) (parse_madt 39 madt_memory 0 0)
parse_madt-Ends_example = parse_madt-Ends 39 madt_memory 0 0 madt_fuel

-- An RSDP at 0, an RSDT at 40 with one address, and the header of a table at 80.
abbrev acpi_memory : ℕ → ℕ
acpi_memory at =
    get_or
      (rsdp_signature
        ++ (replicate 8 0
            ++ (40 ∷ 0 ∷ 0 ∷ 0 ∷ []
                ++ (replicate 24 0
                    ++ (40 ∷ 0 ∷ 0 ∷ 0 ∷ []
                        ++ (replicate 28 0 ++ (80 ∷ 0 ∷ 0 ∷ 0 ∷ [] ++ madt_signature)))))))
      at 0

rsdt-IsTable :
    IsTable
      (root_table false acpi_memory 0).0
      acpi_memory
      (root_table false acpi_memory 0).1
      (80 ∷ [])
unfolding read le_bytes
rsdt-IsTable = record {
  size = refl;
  entries = (refl, (refl, (refl, (refl, tt))));
  small = (omega arith, tt);
}

find_acpi_table-lookup_example :
    find_acpi_table 2 false acpi_memory 0 madt_signature
    ≡ done (lookup false acpi_memory madt_signature (80 ∷ []))
find_acpi_table-lookup_example =
    find_acpi_table-lookup 2 false acpi_memory 0 madt_signature (80 ∷ []) refl rsdt-IsTable
      (omega arith)

abbrev a_base : ℕ
a_base = 0xffff800012345678

tss_descriptor-fields_example :
    (base_of (tss_low a_base 103) (tss_high a_base) ≡ a_base)
    × (limit_of (tss_low a_base 103) ≡ 103)
    × (access_of (tss_low a_base 103) ≡ 0x89)
tss_descriptor-fields_example = tss_descriptor-fields a_base 103 (omega arith) (omega arith)

abbrev some_stubs : Stubs
some_stubs = record {
  exception = λ v. 0x1000 + 16 * v;
  irq_generic = 0x2000;
  apic_timer = 0x2010;
  apic_keyboard = 0x2020;
  apic_spurious = 0x2030;
}

init_idt-LeadsTo_example :
    (e : IdtEntry) × (get_elem? (init_idt some_stubs blank_idt) 8 ≡ some e)
    × LeadsTo (stub_of some_stubs 8) (stack_of 8) (attr_of 8) e
init_idt-LeadsTo_example = init_idt-LeadsTo some_stubs blank_idt 8 refl (omega arith)

abbrev some_hardware : Hardware
some_hardware = record {
  has_rdrand = true;
  has_rdseed = false;
  rdrand = λ time. if time % 2 == 0 then none else some time;
  rdseed = λ time. none;
  jitter = λ time. time;
}

abbrev a_state : CpuRngState
a_state = record {
  pool = replicate 32 1;
  call_count = 0;
  pool_cursor = 24;
  xoshiro_state = 1 ∷ 2 ∷ 3 ∷ 4 ∷ [];
}

abbrev a_generator : Xoshiro
a_generator = record { s0 = 1; s1 = 2; s2 = 3; s3 = 4 }

get_pseudo_random_bytes-outputs_example :
    (get_pseudo_random_bytes 11 a_state ≡ (
      take 11 (all_bytes (outputs 2 a_generator)),
      record a_state { xoshiro_state = four (after 2 a_generator) },
    ))
    × (length (get_pseudo_random_bytes 11 a_state).0 ≡ 11)
get_pseudo_random_bytes-outputs_example =
    get_pseudo_random_bytes-outputs 11 a_state a_generator refl
