-- ===== src/Lib.antt =====
-- The simulator of the 64-bit RISC-V instruction set: a program is loaded from an ELF file into a
-- memory of bytes, and a loop fetches, decodes and executes one instruction after the other.
--
-- Parts and files
--   Base         machine words, lists and the ways a step ends (Base/Outcome: the classes of
--                exception.h, `exit`, undefined behaviour). A 64-bit integer is a native number
--                below 2 ^ 64, signed ones as their two's complement pattern; every operation that
--                wraps has its `% 2 ^ 64` written out (Base/Word). Base/Bits relates `&` and `|` on
--                masks to remainders and sums.
--   Structs      structs.h: `insn_t` (one function for each field), `regfile_t` (Structs/Regfile).
--                Structs/Encode has the instruction formats of the instruction set, as sums of
--                shifted fields; Structs/Fields relates the decoders to them.
--   Mmu          mmu.h and mmu.cpp: `ban`, `read`, `write`, `write_bare`, the accessors for each
--                width and `load_insn`. Mmu/StdMap is what they use of `std::map`, and Mmu/Dump
--                is `dump`. Mmu/Access, Mmu/Fetch, Mmu/Permission and Mmu/Gaps have their
--                properties.
--   Elf          mmu.h and mmu.cpp: the constructor of `mmu_t` and what it calls up to `load_prog`,
--                on a stream of bytes. Elf/Tables has the structures of mmu.h and their places in memory,
--                Elf/Stream the streams of the C library. Elf/Image, Elf/Sections, Elf/Loading,
--                Elf/Layout and Elf/Start follow the loading of an ELF file, Elf/Entries and
--                Elf/Format its writing, and Elf/Refuse files that lack a table.
--   Multi        multi.h: `mulhu`, `mulh` and `mulhsu`; Multi/High relates them to products.
--   Cpu          cpu.h: `state_t` and `cpu_t`, and the macros RS1, WRITE_RD, set_pc and others by
--                which instructions use them. Cpu/Host has what the simulator takes from outside:
--                floating point on bit patterns, the calls of the operating system, and the key
--                that the end iterator of a `std::map` shows.
--   Func         func.h: a function `rv64_*` for each instruction, in modules by kind. An instruction
--                takes the state, the word and the program counter and returns the new program
--                counter beside the new state, or a trap. Func/Integer, Func/Division, Func/Control,
--                Func/Roundtrip, Func/Align, Func/Frame and what stands on them, and
--                Func/Defects have properties.
--   Encoding     encoding.h: match and mask of the registered instructions, of the others
--                (Encoding/Unregistered), and the list of them all (Encoding/Declared).
--   Decode       cpu.h: `register_instructions`, with the order of insn_list.h, and `decode_insn`.
--   Step         cpu.h: the constructor after loading, and `step`: `step_once` is one round of its
--                loop, `step_loop` the loop. Step/Run has the rounds in a row, Step/Start the
--                state before the first; Step/Frame, Step/Align and Step/Illegal are
--                on what a round keeps and does, and Step/Count is `print_count` and its order.
--   Main         riscv-simulator.cpp: `main`. Main/Boot puts loading, the constructor and the
--                loop together.
--   Tests        the theorems on concrete inputs.
--
-- How they interact: `main` chooses the path, `new_mmu` loads the file at it, `new_cpu` sets up the
-- processor, and `step_loop` runs it. `step_once` fetches with `Mmu.load_insn`, finds the entry
-- with `decode_insn`, counts it, and calls its function, which reads and writes the registers and
-- the memory. The call of `exit` in the guest prints the counts, in the order of `print_count`, and
-- ends the run. A trap ends it too, as nothing in the program catches an exception.
--
-- Fuel: only `step_loop` has fuel, one unit for each evaluation of the loop's condition; `steps`
-- rounds take `steps + 1`. With `steps` at 0 the condition never ends the loop.
--
-- Conventions: what C++ leaves undefined and the code can meet is the trap `undefined`: the use of
-- the end iterator as an entry, the search past the end of the table, an index or a `strcmp` that
-- leaves its array, a division by an `sh_entsize` of 0, a path that was not read or does not fit,
-- the overflow of an `int` of `insn_count`, and the system call `time` with a pointer other than
-- NULL, through which the host writes into the simulator itself. The `int` counter of `step` is a
-- number without bound: with `steps` at 0 it overflows in the program, where the loop's condition
-- does not read it, and otherwise it stays at most `steps`. Signed overflow in multi.h, which C++
-- leaves undefined too, is modelled as wrapping; the conversion of an out-of-range number to `int`
-- keeps its low bits, and `>>` on a negative number is arithmetic, as g++, which the Makefile runs,
-- documents.
--
-- A stream is its bytes and a position, and fails or not; a read past the end leaves the rest of
-- the buffer as it was. What an uninitialised variable or buffer holds is an argument. While a file
-- is loaded, allocations succeed and the `int` counters of the loops stay below 2 ^ 31. The file
-- system and what `scanf` reads are arguments of `main`.
--
-- Not modelled: printing other than `dump` and `print_count` (`Debug_elf`, `check_instructions`,
-- `dump_register_file`, `disasm` and what the debugging macros add), and the destructor of `mmu_t`,
-- which only frees memory. The programs under tests are guests of the simulator.
pub mod Base
pub mod Structs
pub mod Mmu
pub mod Elf
pub mod Main
pub mod Multi
pub mod Cpu
pub mod Func
pub mod Encoding
pub mod Decode
pub mod Step
mod Tests
