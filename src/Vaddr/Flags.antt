-- ===== src/Vaddr/Flags.antt =====
-- stage3/include/mem/vaddr.h: the flags of an entry of a page table.
use boot.Base.{ℕ}

-- `enum PT`
pub data Pt : Type 0 where
  pt_present : Pt
  pt_rw : Pt
  pt_user : Pt
  pt_wtcache : Pt
  pt_cdis : Pt
  pt_access : Pt
  pt_dirty : Pt
  pt_size : Pt
  pt_global : Pt
  pt_ram_free : Pt
  pt_mmap_present : Pt
  pt_mmap_not_present : Pt
  pt_ram_present : Pt
  pt_ram_alloc_on_write : Pt
  pt_ram_swap : Pt
  pt_unusable : Pt

unfoldable pub pt_bits : Pt → ℕ
pt_bits pt_present = 1
pt_bits pt_rw = 2
pt_bits pt_user = 4
pt_bits pt_wtcache = 8
pt_bits pt_cdis = 16
pt_bits pt_access = 32
pt_bits pt_dirty = 64
pt_bits pt_size = 128
pt_bits pt_global = 256
pt_bits pt_ram_free = 0
pt_bits pt_mmap_present = 512
pt_bits pt_mmap_not_present = 1024
pt_bits pt_ram_present = 1536
pt_bits pt_ram_alloc_on_write = 2048
pt_bits pt_ram_swap = 2560
pt_bits pt_unusable = 3072
