-- ===== src/Lib.antt =====
-- Boot32: a loader and a kernel for 32-bit PCs.
--
-- The kernel (stage3) keeps free physical pages in a stack of page frames (mem/pmm.cpp), which it
-- moves through with the page-table functions (mem/vaddr.cpp); small objects come from slab pages
-- (mem/slab.cpp). The serial driver (x86/serial.c) puts bytes into a ring (mem/ringbuf.cpp) that the
-- transmit interrupt empties; the handlers (x86/isrs.cc) acknowledge to the interrupt controllers
-- (x86/pic.c). Start-up fills the descriptor tables (x86/gdt.cc), reads the memory types
-- (x86/mtrr.c), arms the timer (x86/pit.c) and looks for the ACPI tables (x86/acpi.c). The loader
-- (stage2) cuts, sorts and merges the memory map of the BIOS (stage2/e820.c), makes page tables
-- (stage2/pt.c) and loads the kernel's file (stage2/elf.c) from a FAT file system that reads sectors
-- by stage2/pff3a/source/diskio.c. Virtual pages of the kernel come from mem/kmalloc.cpp, which keeps
-- its records in order with the shell sort of include/crt/sort.h. A failed assertion ends in a panic
-- (crt/assert.c), and an unexpected exception too.
--
-- The files:
--   Base       tests, lists as C arrays, machine words, bit operations, outcomes of C code
--   Ports      stage3/include/x86/intrinsics.h: flags and ports, as a log of accesses
--   Intrinsics stage3/include/x86/intrinsics.h: the functions on the bits of a word
--   Slab       stage3/mem/slab.cpp and stage3/include/mem/slab.h
--   RingBuf    stage3/mem/ringbuf.cpp and the fetch-and-and of stage3/include/crt/atomic.h
--   Serial     stage3/x86/serial.c and stage3/include/x86/serial.h
--   Mmu        the processor's paging, which the next two are compared with
--   Vaddr      stage3/mem/vaddr.cpp and stage3/include/mem/vaddr.h
--   Pmm        stage3/mem/pmm.cpp
--   Kmalloc    stage3/mem/kmalloc.cpp, on Vaddr, Pmm and Sort
--   Sort       stage3/include/crt/sort.h
--   PageTable  stage3/mem/pagetable.cpp
--   Pic        stage3/x86/pic.c and the spurious handlers of stage3/x86/isrs.cc
--   Isrs       the other handlers of stage3/x86/isrs.cc
--   Pit        stage3/x86/pit.c
--   Mtrr       stage3/x86/mtrr.c
--   Cpuid      stage3/x86/cpuid.c
--   Gates      stage3/x86/gdt.cc, whose exception stubs (Gates.Stubs) end in Panic
--   Panic      stage3/crt/assert.c
--   Acpi       stage3/x86/acpi.c
--   Ata        the status, the reset and the signature of stage3/x86/ata.c
--   MemoryMap  stage2/e820.c and stage2/e820.h
--   BootPages  stage2/pt.c
--   Elf        stage2/elf.c and stage2/elf.h, on BootPages
--   Kernel     stage3/kmain.cpp: the initializations, the tests and the texts
--   Boot       stage2/stage2.c, on MemoryMap, BootPages and Elf
--   Disk       stage2/pff3a/source/diskio.c
--   Text       stage3/crt/print.c, stage3/crt/util.c, and hextostr, strlen, memset, min and max of
--              stage2/util.c
--   Console    the output of stage2/util.c and of stage3/kmain.cpp
-- A definition has the name of the function that it models, in small letters. A module below a
-- component holds lemmas or theorems and says so in its first lines; Tests holds runs and concrete
-- cases.
--
-- How code becomes definitions: an unsigned integer is a natural number with its wrap-around written
-- out, an int its bit pattern; a struct is a record; an array is a list, and an access out of range
-- is the outcome `fault`; a failed assert is the outcome `panic`. A function that changes an object
-- returns the new object. Memory behind page tables is the state of Mmu, which every access walks.
-- What devices answer is a parameter: a function of all port accesses before, or of the register
-- number for rdmsr.
--
-- Bounds: the loop of slabp_init runs on fuel for 1022 rounds, since each round moves on by at
-- least one word of 1022, and its theorem gives a result for every size. The digits of fmt_uint run
-- on fuel for 10 rounds, enough for 32 bits in base 10. The other loops have their number of rounds
-- as an argument: 8 in mtrr_set and hextostr, 32 in idt_init, 8192 in each search of find_rsdp, 2 ^
-- 16 in the loops of elf_load_file over counts of 16 bits. strlen runs on fuel for the characters,
-- and its theorem gives the length. In fill_region of pmm_init the fuel is 2 ^ 20 rounds, behind
-- which the address repeats; its theorem gives a result for maps that end a page before 4 GiB. The
-- loop of popcount has fuel for one round more than the word, which falls in each. The insertion of
-- sortE820 has one round more than regions in front: if it goes on, it reads outside the memory.
-- The waits of a panic, of ser_read and of ata_soft_reset run on fuel; the theorem on a panic is
-- about a port that is ready. The shell sort's inner loop has a round for each index below its own,
-- and its theorem says that the sort returns.
--
-- The ring's counts are 15 bits wide; what is said of the serial driver and of two users of a ring
-- holds before the count of written bytes reaches 0x8000, and RingBuf.Wrap says what happens then.
-- Interleavings are at the granularity of calls; the order of memory accesses is not modelled.
--
-- Not modelled: the third-party FAT code in stage2/pff3a/source/pff.c, whose calls are a parameter
-- of Elf; start-up code in assembly; kmalloc and kfree, which the repository only declares; memcpy
-- between pages, a parameter of vmap; loading the descriptor tables; ata_recv, which is one
-- instruction.
pub mod Base
pub mod RingBuf
pub mod Ports
pub mod Intrinsics
pub mod Serial
pub mod Kmalloc
pub mod Elf
pub mod Boot
pub mod Kernel
pub mod Console
pub mod Panic
pub mod Mmu
pub mod Slab
pub mod Vaddr
pub mod Text
pub mod Pic
pub mod Pit
pub mod Mtrr
pub mod Gates
pub mod Pmm
pub mod Acpi
pub mod Disk
pub mod PageTable
pub mod Isrs
pub mod BootPages
pub mod Ata
pub mod Cpuid
pub mod Sort
pub mod MemoryMap
