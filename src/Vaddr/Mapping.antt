-- ===== src/Vaddr/Mapping.antt =====
-- What `pt_map` and `pt_unmap` do to the translation of every address.
use boot.Base.{ℕ, ◌+◌, ◌*◌, ◌/◌, ◌%◌, ◌^◌, ◌<◌, ◌≡◌, refl, arith, ok, some, none, ◌∙◌, ap, sym}
use boot.Base.{bit_and, bit_or, if◌then◌else◌}
use boot.Mmu.{Machine, translate}
use boot.Vaddr.{pt_map, pt_unmap}
use boot.Vaddr.Access.{IsRecursive}
use boot.Vaddr.Calls.{IsWords, entry, replaced, mapping, pt_map-present, pt_unmap-present}
use boot.Vaddr.Translate.{IsOwnTable, same_page, through, translate-replaced, IsRecursive-replaced}
use boot.Base.{bit_or_fields, bit_or_one, offset_mask, zero_or}

pub mapping_lem :
    (q flags : ℕ) → mapping (q * 2 ^ 12) flags ≡ (q * 2 ^ 12 + flags % 2 ^ 12) / 2 * 2 + 1
mapping_lem q flags =
    let z : q * 2 ^ 12 + 0 ≡ q * 2 ^ 12 = omega arith in
    let f = bit_or_fields 12 q 0 (flags % 2 ^ 12) (omega arith) (omega arith) in
    let e : bit_or (q * 2 ^ 12) (bit_and flags 0xFFF) ≡ q * 2 ^ 12 + flags % 2 ^ 12 =
      rw (offset_mask flags)
        (ap (λ t. bit_or t (flags % 2 ^ 12)) (sym z) ∙ f ∙ rw (zero_or (flags % 2 ^ 12)) refl) in
    rw e (bit_or_one (q * 2 ^ 12 + flags % 2 ^ 12))

through-mapping :
    (q flags at : ℕ) → through (mapping (q * 2 ^ 12) flags) at ≡ some (q * 2 ^ 12 + at % 2 ^ 12)
through-mapping q flags at =
    let e = mapping_lem q flags in
    let p : mapping (q * 2 ^ 12) flags % 2 ≡ 1 = omega arith in
    let f : mapping (q * 2 ^ 12) flags / 2 ^ 12 ≡ q = omega arith in rw (p, f) refl

through-cleared : (e at : ℕ) → through (e / 2 * 2) at ≡ none
through-cleared e at = let p : e / 2 * 2 % 2 ≡ 0 = omega arith in rw p refl

-- With a recursive directory whose entry for the 32-bit address `va` leads to a page table of its
-- own, `pt_map` of the frame `q` returns the entry that stood there; afterwards the page of `va`
-- leads to that frame, every other page leads where it led before, and the directory still leads
-- to itself.
pub pt_map-translate :
    {m : Machine} (va q flags : ℕ)
    → IsRecursive m
    → IsOwnTable m va
    → va < 2 ^ 32
    → (m' : Machine) × (pt_map (q * 2 ^ 12) va flags m ≡ ok (entry m va, m'))
      × IsRecursive m'
      × ((at : ℕ)
          → at < 2 ^ 32
          → translate m' at
            ≡ (if same_page at va then some (q * 2 ^ 12 + at % 2 ^ 12) else translate m at))
pt_map-translate {m} va q flags r own low = (
  replaced m va (mapping (q * 2 ^ 12) flags) (va / 2 ^ 12 * 2 ^ 12),
  pt_map-present r va low (q * 2 ^ 12) flags own.is_present,
  IsRecursive-replaced va (mapping (q * 2 ^ 12) flags) (va / 2 ^ 12 * 2 ^ 12) r own low,
  λ at h.
      translate-replaced va (mapping (q * 2 ^ 12) flags) (va / 2 ^ 12 * 2 ^ 12) r own low at h
      ∙ rw (through-mapping q flags at) refl,
)

-- With a recursive directory of 32-bit words whose entry for the 32-bit address `va` leads to a
-- page table of its own, `pt_unmap` returns the frame that the entry of `va` held; afterwards the
-- page of `va` is not there, every other page leads where it led before, and the directory still
-- leads to itself.
pub pt_unmap-translate :
    {m : Machine} (va : ℕ)
    → IsRecursive m
    → IsWords m
    → IsOwnTable m va
    → va < 2 ^ 32
    → (m' : Machine) × (pt_unmap va m ≡ ok (entry m va / 2 ^ 12 * 2 ^ 12, m'))
      × IsRecursive m'
      × ((at : ℕ)
          → at < 2 ^ 32
          → translate m' at ≡ (if same_page at va then none else translate m at))
pt_unmap-translate {m} va r words own low = (
  replaced m va (entry m va / 2 * 2) va,
  pt_unmap-present r va low words own.is_present,
  IsRecursive-replaced va (entry m va / 2 * 2) va r own low,
  λ at h.
      translate-replaced va (entry m va / 2 * 2) va r own low at h
      ∙ rw (through-cleared (entry m va) at) refl,
)
