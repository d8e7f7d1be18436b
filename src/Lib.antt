-- ===== src/Lib.antt =====
-- Verification of linx-model, the C++ model of the Linx instruction set.
--
-- The program and its parts, with the files that model them:
--   SimQueue.antt and SimQueue/: the latency queue `SimQueue` of include/linx/model/sim_queue.hpp
--     between two modules. Its deques are lists, and an operation that fails an assertion gives
--     `none`.
--   Isa/Desc.antt, Isa/Enums.antt: the descriptors and enumerations of include/linx/model/isa. The
--     generated tables of src/isa/generated_tables.cpp are a parameter, the record `Tables`.
--   Isa/Names.antt, Isa/Minst.antt and Isa/Minst/: the instruction packet `Minst` of
--     src/isa/minst.cpp: its fields by name, the typed views, the lifecycle.
--   Isa/Codec.antt and Isa/Codec/: decoding and encoding of src/isa/codec.cpp. Word holds masks and
--     sign extension, Decode the search for a form and the field extraction, Encode the way back;
--     the other files hold the proofs.
--   Emulator/SharedTile.antt and Emulator/SharedTile/: the bank of shared tiles of
--     src/emulator/shared_tile.cpp; Emulator/TileKinds.antt the kinds that its two checks take.
--   Emulator/State.antt, Emulator/Context.antt and Emulator/Context/: the architectural state and
--     the execution context of src/emulator/execution_context.cpp: memory, termination, loading.
--   Emulator/Record.antt and Emulator/Record/: the trace record of src/emulator/minst_record.cpp, its
--     JSON line and its dump in Json, with the texts of Isa/Asm.antt and Isa/Disasm/Text.antt; Read
--     and RoundTrip read a line back, and Trace has the trace files of
--     src/emulator/execution_context.cpp.
--   Emulator/Executor.antt and Emulator/Executor/: the reference executor of
--     src/emulator/reference_executor.cpp: it fetches through the context, decodes with the codec,
--     executes on the state, and commits a record to the context.
--   Isa/Asm.antt and Isa/Asm/: the assembler text of a packet in src/isa/minst.cpp; Runs and Tokens
--     compare its replacement of names with the tokens of a text. Isa/Dump.antt: the printed packet,
--     with the writer of include/linx/model/packet_dump.hpp.
--   Isa/Disasm.antt and Isa/Disasm/: the disassembler of src/isa/disasm.cpp, which tries the codec
--     at every length and walks the executable sections of a program; Print has its listing.
--   Elf.antt and Elf/: the loader of src/elf_loader.cpp. Elf.antt has the reads of a file's bytes,
--     where a read past the end is an outcome of its own, Headers and Load the rest of the code.
--   Module.antt and Module/: the queue-wired module of include/linx/model/module.hpp. Ports has the
--     binding of queues, Cycle the event-driven `Work` and `Xfer`, Setup `Build` and `Reset`,
--     Issues the validation, with src/validation.cpp, Construct the growth of a tree of modules, and
--     Built what it leaves. The
--     queues stand on a heap, and what a
--     derived class overrides is a record of functions, `Hooks`.
--   System.antt and System/: the simulation of include/linx/model/sim_system.hpp, over an interface
--     of objects, `SimObject`, that System/Modules.antt fills with the modules. It loads its
--     program with the loader.
--   Main.antt and Main/: the command line of src/sim_main.cpp and, in Main/Loop.antt, the main loop
--     of include/linx/model/sim_main.hpp on a simulation.
--   Cli/Engine.antt: `ExecutorBackedSim`, the reference executor as a simulation. Cli.antt and Cli/:
--     src/linx_model_cli.cpp, which puts the parts together. Run has the three engines and `main`:
--     the reference engine loads a program and runs the executor, the `ca` engine gives a simulation
--     to the main loop, the compare engine steps both and compares their records. Lockstep, Engines
--     and CaEngine set the engines against each other, Clean and Total say how a call ends, Mismatch has the
--     files that two different traces leave.
--   Emulator/Compare.antt and Emulator/Compare/: the comparison of two traces in
--     src/emulator/compare.cpp, on records of any type.
--   Base.antt and Base/: lists, Boolean tests, signed integers, binary digits and texts as lists of
--     bytes, with the numbers that a stream prints.
--
-- Numbers are the native ones, and a w-bit integer wraps where the code's does, by `% 2 ^ w`. These
-- functions are on fuel. `run` is the loop of `ReferenceExecutor::Run`, `run_loop` that of
-- `RunSimMain` and `compare_loop` that of the compare engine, none of which need end; with a bound
-- on the cycles one turn a cycle, and one or two more, are enough. `disassemble_from` is the loop of
-- `DisassembleSection`, for which the section's length is enough, since a line takes a byte at
-- least; so is the text's length for `replace_from`, the loop of `ReplaceAsmToken`. `digits` has the
-- number itself and one more.
--
-- Not modelled: the generated tables (data), the sinks of the logger and what goes to the error
-- stream (output), where the files of a mismatch stand, file input, what a file system refuses,
-- memory that runs out, and the change of a module's own tree by an override. A virtual function
-- of a module changes its own state and the queues, not its submodules. Parameters stand for
-- `std::stoull`, `std::sort`, `std::memcmp` on two records, the decimal text of an index in a
-- section's name, the bytes of a file, whether a file opens for a trace, and whether a result file
-- is written. The engines open the trace files, but what a run writes to them stands on its own,
-- in Emulator/Record/Trace.antt.
pub mod Base
pub mod SimQueue
pub mod Elf
pub mod System
pub mod Main
pub mod Cli
pub mod Module
pub mod Isa
pub mod Emulator
