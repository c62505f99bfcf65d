-- ===== src/Acpi/Search.antt =====
-- The search of a table by its signature in an XSDT or an RSDT that is laid out in memory.
use crap_os.Base.{
  eq_bytes, ℕ, zero, suc, refl, ap, inl, inr, Bool, true, false, not, Option, none, some, List, [],
  arith, All, length, length-append, ltb, leb, Bool-cases, ◌+◌, ◌^◌, ◌<◌, ◌≡◌, ◌∷◌, ◌++◌, ◌&&◌,
  ◌==◌, if◌then◌else◌, ◌∙◌,
}
use crap_os.Acpi.{
  find_acpi_table, find_table_in_rsdt, find_table_in_xsdt, sdt_header_size, length_at, read,
  rsdp_signature, search_loop, signature_at,
}
use crap_os.Acpi.Bytes.{Holds, Holds-append, read-le_bytes}
use crap_os.Blake.{le_bytes}
use crap_os.Blake.Lengths.{length-le_bytes}
use crap_os.Pages.{virt}
use crap_os.Tasks.Outcome.{done}

-- Addresses of a number of bytes each, one behind the other.
abbrev pub addresses : ℕ → List ℕ → List ℕ
addresses width [] = []
addresses width (w ∷ ws) = le_bytes width w ++ addresses width ws

-- The virtual address of the first table that is not null and has the signature.
abbrev pub lookup : Bool → (ℕ → ℕ) → List ℕ → List ℕ → Option ℕ
lookup higher mem sig [] = none
lookup higher mem sig (w ∷ ws) =
    let rest = lookup higher mem sig ws in
    if w == 0
    then rest
    else if eq_bytes (signature_at mem (virt higher w)) sig
    then some (virt higher w)
    else rest

search_loop-lookup :
    (ws : List ℕ) (fuel width : ℕ) (higher : Bool) (mem : ℕ → ℕ) (sig : List ℕ) (at : ℕ)
    → 0 < width
    → All (λ w. w < 256 ^ width) ws
    → length ws < fuel
    → Holds mem at (addresses width ws)
    → search_loop fuel width higher mem sig at (at + length (addresses width ws))
      ≡ done (lookup higher mem sig ws)
unfolding search_loop
search_loop-lookup ws zero width higher mem sig at some_width small enough h =
    absurd (omega (arith, enough))
search_loop-lookup [] (suc fuel) width higher mem sig at some_width small enough h =
    let at_end : ltb (at + 0) (at + width) ≡ true = ground (arith, some_width) in rw at_end refl
search_loop-lookup (w ∷ ws) (suc fuel) width higher mem sig at some_width (small, smalls) enough h =
    let (left, right) = Holds-append mem at (le_bytes width w) (addresses width ws) h in
    let size = length-le_bytes width w in
    let total = length-append (le_bytes width w) (addresses width ws) in
    let inside : ltb (at + length (le_bytes width w ++ addresses width ws)) (at + width) ≡ false =
      ground (arith, size, total) in
    let next : at + length (le_bytes width w ++ addresses width ws)
        ≡ at + width + length (addresses width ws) =
      omega (arith, size, total) in
    let behind : Holds mem (at + width) (addresses width ws) = rw size at right in
    let value = read-le_bytes width mem at w small left in
    let ih =
      search_loop-lookup ws fuel width higher mem sig (at + width) some_width smalls
        (omega (arith, enough)) behind in
    let going : search_loop fuel width higher mem sig (at + width)
          (at + length (le_bytes width w ++ addresses width ws))
        ≡ done (lookup higher mem sig ws) =
      ap (search_loop fuel width higher mem sig (at + width)) next ∙ ih in
    elim (Bool-cases (w == 0)) [
      | inl e ↦ rw (inside, value, e) going
      | inr e ↦ elim (Bool-cases (eq_bytes (signature_at mem (virt higher w)) sig)) [
        | inl f ↦
            let f' : eq_bytes (signature_at mem (virt higher (read width mem at))) sig ≡ true =
              ap (λ v. eq_bytes (signature_at mem (virt higher v)) sig) value ∙ f in
            rw (inside, f', value, e, f) refl
        | inr f ↦
            let f' : eq_bytes (signature_at mem (virt higher (read width mem at))) sig ≡ false =
              ap (λ v. eq_bytes (signature_at mem (virt higher v)) sig) value ∙ f in
            rw (inside, f', value, e, f) going
      ]
    ]

-- A table of addresses of `width` bytes: its length, and the addresses behind the header.
pub record IsTable (width : ℕ) (mem : ℕ → ℕ) (table : ℕ) (ws : List ℕ) : Type 0 where
  pub size : length_at mem table ≡ sdt_header_size + length (addresses width ws)
  pub entries : Holds mem (table + sdt_header_size) (addresses width ws)
  pub small : All (λ w. w < 256 ^ width) ws

table-lookup :
    (width fuel : ℕ) (higher : Bool) (mem : ℕ → ℕ) (table : ℕ) (sig ws : List ℕ)
    → 0 < width
    → IsTable width mem table ws
    → length ws < fuel
    → search_loop fuel width higher mem sig (table + sdt_header_size) (table + length_at mem table)
      ≡ done (lookup higher mem sig ws)
table-lookup width fuel higher mem table sig ws some_width h enough =
    let end : table + length_at mem table ≡ table + sdt_header_size + length (addresses width ws) =
      omega (arith, h.size) in
    ap (search_loop fuel width higher mem sig (table + sdt_header_size)) end
    ∙ search_loop-lookup ws fuel width higher mem sig (table + sdt_header_size) some_width h.small
        enough h.entries

-- Which table the RSDP leads to: the width of its addresses and its virtual address.
abbrev pub root_table : Bool → (ℕ → ℕ) → ℕ → ℕ × ℕ
root_table higher mem rsdp =
    if leb 2 (mem (rsdp + 15)) && not (read 8 mem (rsdp + 24) == 0)
    then (8, virt higher (read 8 mem (rsdp + 24)))
    else (4, virt higher (read 4 mem (rsdp + 16)))

-- The RSDP has its signature, and leads to a table of addresses: the XSDT if the revision is 2 or more
-- and its address is not null, and the RSDT otherwise. With fuel for each address, `find_acpi_table`
-- returns the first table that is not null and has the signature, or nothing if there is none.
pub find_acpi_table-lookup :
    (fuel : ℕ) (higher : Bool) (mem : ℕ → ℕ) (rsdp : ℕ) (sig ws : List ℕ)
    → eq_bytes (signature_at mem rsdp ++ signature_at mem (rsdp + 4)) rsdp_signature ≡ true
    → IsTable (root_table higher mem rsdp).0 mem (root_table higher mem rsdp).1 ws
    → length ws < fuel
    → find_acpi_table fuel higher mem rsdp sig ≡ done (lookup higher mem sig ws)
unfolding find_acpi_table find_table_in_xsdt find_table_in_rsdt
find_acpi_table-lookup fuel higher mem rsdp sig ws named h enough =
    elim (Bool-cases (leb 2 (mem (rsdp + 15)) && not (read 8 mem (rsdp + 24) == 0))) [
      | inl e ↦
          let h' : IsTable 8 mem (virt higher (read 8 mem (rsdp + 24))) ws = rw e at h in
          rw (named, e) (table-lookup 8 fuel higher mem _ sig ws (omega arith) h' enough)
      | inr e ↦
          let h' : IsTable 4 mem (virt higher (read 4 mem (rsdp + 16))) ws = rw e at h in
          rw (named, e) (table-lookup 4 fuel higher mem _ sig ws (omega arith) h' enough)
    ]
