-- ===== src/Lib.antt =====
-- Verification of the CHypervisor kernel: models of its components in C, and the theorems that make
-- them correct. Paths are from the repository's root.
--
-- The bootloader (`bootloader/boot.c`) loads the kernel's image, fetches the memory map, leaves the boot
-- services and enters the kernel with the map. `kernel/main.c` keeps a snapshot of it, sets up segments,
-- interrupts and the interrupt controllers, gives the map to the page allocator, starts the small-object
-- allocator on top of it, enters VMX root operation, loads a VMCS, fills it and launches a guest, whose
-- exits are dispatched by their reason. What cannot go on ends in a panic.
--
-- Files, each with the modules below it:
--   Prelude    shared names, Boolean tests, machine words, bits of words, rounding, texts.
--   Paging     kernel/arch/x86/paging.c and paging.h. Memory is the entries of each table. Table and
--              Walk say how the processor reads tables, Reconstruct is the code, over an interface to the
--              page allocator; Clone, Loop, Upper and Trees follow the clone, Direct the direct map,
--              Switch and Space the whole; Kernel fills the interface by the page allocator. The copied
--              tables have three levels below the top one, so nothing takes fuel.
--   PageAlloc  kernel/page_alloc.c. The globals are the record PageAllocator; the bitmap is a function
--              from line number to 64-bit word. Bitmap is about marking, Search about find_run, Alloc and
--              Release about the allocation functions, Setup, Init and Status about the two walks over
--              the memory map. find_run takes the end of the managed range and two as its fuel, since
--              every round advances the start; running out is a result of its own, which the theorems
--              exclude. A walk whose descriptor size is 0 does not end and gives none.
--   Bootinfo   kernel/bootinfo.c and bootinfo.h: the snapshot of the memory map, whose descriptors are
--              bytes.
--   BootPage   bootloader/arch/x86/arch_x86_page.c: the tables that the bootloader extends for the kernel's
--              image. Levels is one level of the way down, Walk says how the processor reads the tables, Map
--              is the whole.
--   KernelLoader  bootloader/kernel_loader.c, elf64.c and elf64.h: the reading of the kernel's ELF file and
--              the loading of its segments, over the record Firmware. Headers is the layout of the file,
--              Image the loading; Read, Segments, Extent and Ending follow its steps, Total its termination.
--              A read of n bytes takes n + 1 rounds of its loop as fuel, since every round but the last gets
--              a byte.
--   BootMap    bootloader/memmap.c, and boot.c from the loading of the kernel on, over the record
--              MapServices. Safe takes what the UEFI specification says of the memory map; Refresh, Exit and
--              Main take firmware that also has the memory asked for and whose map grows little, Spares.
--   Startup    kernel/main.c: the check of the magic number and the way of the memory map to the page
--              allocator. The other components' set-up in between is not looked at.
--   Common     kernel/common.c: memcpy and memcmp; Words is kernel/bits.h.
--   BinAlloc   kernel/bin_alloc.c: kmalloc and kfree. Memory is the link word at each chunk's address;
--              the page allocator is the interface Pages. Class is about the choice of a bin, Chain about
--              the linked lists, Malloc about the two operations.
--   Gdt        kernel/arch/x86/gdt.c: descriptors, the table, and the reading of a TSS base.
--   Interrupt  kernel/arch/x86/idt.c and interrupt.c: gates, registration and dispatch. A handler is an
--              action on any state; one that does not return gives none. Stubs is isr_stubs.c as
--              instructions of a processor with a stack in memory; Saved, Return and Resume follow an
--              interrupt.
--   Pic        kernel/arch/x86/pic.c over port instructions.
--   Serial     kernel/serial.c: the port accesses, in order.
--   Log        kernel/log.c: the bytes that are sent. Digits is about numbers, Format the parser of
--              formats, Render the items of a format, Shown what they must print, Case and Print that
--              they do, Message whole lines. The loop over a format takes its length as fuel, since each round
--              consumes a byte; digits take the room of their buffer.
--   Panic      kernel/panic.c: the formatter, over its buffer's size, and the lines of the report. Shown is
--              what a format must print, Format and Print that it does. Digits take the room of their
--              buffer, the walk over the stack frames the 64 rounds of the source.
--   Vmcs       kernel/arch/x86/vmm/vmcs.h, vmcs.c, vmx_log.h and vmx_log.c: the encodings, and the access
--              wrappers over the record Machine, whose Laws say what the manual says of VMREAD and
--              VMWRITE of full fields; nothing is assumed of the high half of a field. The wrappers call each other when they fail, so they take the depth of the stack
--              as fuel; two is enough while the instruction error can be read.
--   Vmx        kernel/arch/x86/vmm/vmx.c over the record Cpu.
--   Vcpu       kernel/arch/x86/vmm/vcpu.c: Controls and Setup are the VMCS of the guest as sequences of
--              checked and ignored writes, Writes what such a sequence leaves, Launch and Ready the
--              launch, Exit the handling of exits, Early the exit handler of the first launch.
--   Vmentry    kernel/arch/x86/vmm/vmentry_exit.c: the entry and the exit stub as instructions of a
--              processor. What the called C function does and whether the guest is entered are parameters.
--              Trip is the way from one stub to the other.
--
-- Modules named Tests hold runs and concrete instances of the interfaces.
--
-- Not modelled: log lines where their text does not matter; bootloader/file.c and log.c, which call the
-- firmware; the set-up of the firmware's libraries in boot.c; the switch of the stack and the order of the
-- initialisation functions in main.c; the macros of bits.h that choose a helper by the size of a type. The
-- guest itself is its entry and its exits. The entry loop vcpu_loop of vcpu.c is left: it goes through the
-- stubs, which stand over registers and memory in Vmentry, and through the dispatcher, which stands over
-- the fields of the VMCS in Vcpu.
pub mod Prelude
pub mod Paging
pub mod PageAlloc
pub mod Bootinfo
pub mod BootPage
pub mod Vmcs
pub mod Gdt
pub mod Vcpu
pub mod BinAlloc
pub mod Pic
pub mod Serial
pub mod Interrupt
pub mod Log
pub mod Vmx
pub mod Vmentry
pub mod KernelLoader
pub mod BootMap
pub mod Panic
pub mod Common
pub mod Startup
