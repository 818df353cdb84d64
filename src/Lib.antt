-- ===== src/Lib.antt =====
-- A verification library for the kernel of BetaOS and for the C library it is linked with.
--
-- The kernel boots on an Apple-style loader: it reads the flattened device tree and the boot
-- command line that the loader leaves in memory, sets up the machine from them, and keeps time
-- with the CMOS clock. The modelled parts are the ones that interpret data from outside:
--
-- * Kernel/Platform/DeviceTree.c, in DeviceTree and its children. `Memory` and `Entry` hold the
--   loads, DTInit, the private walks (skipProperties, skipTree, GetFirstChild, GetNextChild,
--   GetNextComponent, FindChild), DTGetProperty and DTLookupEntry; `Search` holds find_entry and
--   DTFindEntry; `Iterator` the entry and property iterators, with DTEnterEntry and DTExitEntry.
--   `Tree` is the abstract tree and `Layout` its encoding; `Node`, `Skip`, `Properties`, `Value`,
--   `Child`, `Path`, `Lookup` and `Resolve` lead from the loads to path lookup, `Preorder` to the
--   search, `Enumerate` and `EachProperty` to the iterations, `Scopes` treats nested scopes, and
--   `Linked` what DTGetProperty does with the strcmp of Libc. A function keeps its name without the
--   prefix DT, in snake_case: DTLookupEntry is `lookup_entry`.
-- * Kernel/Platform/bootargs.c, in BootArgs and its children. `Copy` holds isargsep, argstrlcpy
--   and argnumcpy, `Number` holds getval, `Parse` holds Parse_boot_argn; `Digits` and `Value` are
--   on numbers, `Safe` and `Ends` on the writes and the loop, `Stored` on the bytes of a number, `Found` on
--   one argument.
-- * Libc/Libc/string/strcmp.cpp and strncmp.cpp, in Libc.Strcmp and Libc.Strncmp, with Libc.Compare. DeviceTree.c
--   calls the first, bootargs.c the second.
-- * Libc/Libc/time/time.c, in Libc.Time and its children. `Cmos` holds read_rtc and what it
--   calls, `Seconds` holds time, `Weekday` holds gmtime_r; `Atomic` is on a clock that ticks while
--   it is read, `Encode` on what a clock chip stores, and `Calendar` is the reference calendar.
-- * Libc/Libc/stdio/printf.c, in Libc.Printf and its children. `Format` reads a conversion
--   specification, `Convert` holds the conversions and the loop of __doprnt; `Digits` and
--   `Numeral` are on the digits of numbers, `Layout` on the padding, `Count` on the returned
--   count, `Run`, `Rounds` and `Decimal` on whole calls. It writes through putchar, of which only
--   the bytes put are kept.
-- * Kernel/Kernel/i386/cpuid.c and cpuid.h, in Cpuid and its children. `Generic` and `Leaves` hold
--   cpuid_set_generic_info leaf by leaf, `Table` the descriptors of leaf 2, `Cache` holds
--   cpuid_set_cache_info, `Family` and `Setup` the rest up to cpuid_info, `Vmm` the hypervisor.
--   `Signature` and `Descriptors` are on leaf 1 and leaf 2; `Described`, `Published`,
--   `Untouched` and `Boot` lead from the caches that leaf 4 describes to cpuid_info; `Hypervisor`
--   is on `Vmm`. The prefix cpuid_ of functions and fields is left out.
-- * Kernel/Kernel/i386/lapic.c and lapic.h, with the start in mp.c, in Lapic and its children.
--   `State` holds the registers and variables, `Ops` the legacy and the x2APIC operations, `CpuMap`
--   the maps between processors and controllers, `Init` lapic_init and the settings, `Interrupt`
--   lapic_interrupt, lapic_send_ipi and smp_init. `Registers` is on reads and writes in either
--   mode, `Inverse` on the maps, `Eoi` on acknowledgement, `Delivery` on sending, `Ready` and
--   `Start` on the start. Registers hold what is written; what others see is a log of events.
-- * Kernel/Kernel/i386/tsc.c, in Tsc and its children. `Factors` holds the conversion factors,
--   `Setup` holds EFI_get_frequency, over DeviceTree, and tsc_init, over what Cpuid gives;
--   `Accuracy` is on the frequency that results.
--
-- MemoryMap (Kernel/Kernel/i386/i386_vm_init.c, with structures and constants of boot.h, efi.h,
-- pmap.h and vm_param.h): `Range` holds a range of the firmware (EfiMemoryRange), a region of the
-- kernel's table (pmap_memory_region_t) and the count of bytes by type; `Scan` the loop of
-- i386_vm_init over the ranges, whose state is the table with the latest region first, and whose
-- outcome is `overrun` where the code writes behind the table; `Size` the cap on the memory and the
-- low pages. The proofs: `Coverage` follows the pages of the table through the merge of adjacent
-- regions, `Offered` says what one range adds, `Marked` counts regions, `Table` joins these over the
-- loop, `Firmware` reads the ranges without the code, `Pages` compares both, and `Capped` is on the
-- cut of the table. The firmware's map is a list of ranges, and the limit `maxpg` is 0 as in the
-- only call.
--
-- Rtclock (Kernel/Kernel/i386/rtclock.c, with the routines _rtc_nanotime_read and
-- pal_rtc_nanotime_store of Kernel/Kernel/asmlib.S): `Nanotime` holds the structure, its writer, its
-- reader as a list of rounds that a write may disturb, and rtc_set_timescale on fuel, of which 31
-- is enough, since a frequency above 0 passes the threshold after 30 doublings; `Timer` setPop, the
-- deadlines and rtclock_init, over a table of operations that may be NULL. The frequency is the one
-- of Tsc. The proofs: `Scale` is on the loop, `Accuracy` on the time that is read, `Deadline` on the
-- empty table that the file has for the timer.
--
-- How C is read. Memory with the device tree is a list of bytes and an address an index into it,
-- with 0 for NULL; a hypothesis keeps the addresses below 2^64. A pointer into the command line is
-- the list of the bytes up to the NUL, and a destination the list of the bytes that it has room
-- for, so that a write behind it is `none`. `char` is unsigned, as the project files set it.
-- Unsigned arithmetic wraps at its width where it is written out; `int` and `long long` values
-- that are stored are taken as their bits. DeviceTree.c takes strcmp as an argument, since it
-- means the function of the C standard and is linked with that of Libc. The processor is
-- a parameter, as two functions for the CPUID instruction and the model-specific registers. The CMOS chip is a
-- parameter: a function from its state and a register to the byte read and its next state. The
-- fixed addresses that stand in DeviceTree.c for calls of kalloc are kept as they are, so that all
-- iterators of a kind are one object.
--
-- Loops. Loops over a count or a list recurse on it. The walks over the tree take a fuel that the
-- theorems bound by the height of the tree; lookup takes one round for each component of the path;
-- the loop over the arguments one for each byte of the command line. The clock's loop takes three
-- rounds when the clock ticks once; that of __doprnt one for each byte of plain text, and its
-- digits fit the 64 bytes of their buffer. The loop of strcmp repeats its state after 256 rounds.
-- The scan of the caches takes a round for each and one more, that of leaf 2 breaks at its
-- fifth. The wait for an interrupt to be delivered takes as many rounds as the hardware needs reads.
--
-- Not modelled: the conversions b, B and D of __doprnt; the debug output of gmtime_r, and gmtime,
-- which returns the address of a local variable; the rest of the kernel (paging,
-- multiprocessing, traps), which writes machine registers; the drivers in C++ and Swift;
-- the Objective-C runtime.
pub mod Prelude
pub mod Libc
pub mod DeviceTree
pub mod BootArgs
pub mod Cpuid
pub mod Lapic
pub mod Tsc
pub mod MemoryMap
pub mod Rtclock
