-- ===== src/Lib.antt =====
-- Verification of the Ntel graphics shim: the command ring, the shader translation engine, and the
-- flight recorder (NtelSpoofKext/), with the firmware uploads and the service that spoofs a device.
--
-- A client hands a packet of AIR bytes to the engine, with `ntel_engine_process_command`. The engine
-- drops its shader cache if the caller is another process than the last one, looks the packet up
-- by hash, verify tag and length, translates it to Gen12 instructions if it is not there, keeps the
-- translation, and writes the bytes to the shared ring, from which the consumer reads.
--
-- The files:
--   Common      words, lists, and blocks of memory. An access out of a block is a `fault`; a theorem
--               that a call is `done` says that it stays inside its blocks.
--   Queue       the specification of the ring: a FIFO of fewer bytes than its capacity.
--   SharedRing  NtelSpoofKext/src/NtelSharedRing.c: `ntel_ring_init`, `ntel_ring_try_write`,
--               `ntel_ring_try_read` and `ntel_ring_cleanup` are `init`, `try_write`, `try_read` and
--               `cleanup`. The critical sections are `write_locked` and `read_locked`, one step each,
--               since they run under the mutex of the context.
--   Memo        the specification of the cache: a direct-mapped memo of 256 places.
--   Engine      NtelSpoofKext/src/NtelTranslationEngine.c: Engine/Hash (`ntel_shader_hash`,
--               `ntel_shader_verify_tag`), Engine/Mask (`ntel_calculate_predicate_mask`), Engine/Isa
--               (the opcode table and the translators of single instructions), Engine/Translate
--               (`translate_air_to_gen12`), Engine/Cache (the state, `ntel_engine_init` and the cache),
--               Engine/Command (`ntel_engine_process_command`, the scorch pass and the cleanup) and
--               Engine/Cycle (`detect_cycle_dfs`, which nothing calls yet).
--   Firmware    NtelSpoofKext/src/NtelFirmwareInjector.c: the firmware context, its emulated MMIO window
--               (`map_mmio`), the uploads into it, and its clean-up; Firmware/Elf (`is_elf`,
--               `extract_elf_load_segments`) and Firmware/Load (`read_file`, `load_blob`, `inject_all`);
--               in Firmware/Kernel the variants of a kernel build, which read through vnodes
--               (`read_vnode`), map BAR0 (`map_mmio`) and wait for the device (`upload`), with the
--               counts of what the kernel has handed out (`Resources`).
--   Simulation  NtelSpoofKext/src/NtelSimulation.c: `drain_ring`; in Simulation/Suite the tests of the
--               ring that `ntel_sim_run` starts with (`ring_tests`); in Simulation/Bleed,
--               Simulation/Caching and Simulation/Pipeline its five tests of the engine
--               (`engine_suite`, without the stress tests that a run may have among them); in
--               Simulation/Stress `test_stress_ring_multithread`, whose threads take their calls of
--               the ring in the order of a schedule; in Simulation/Recorder
--               `test_debug_ring_drain`; in Simulation/Setup `ntel_sim_setup`.
--   DebugRing   NtelSpoofKext/src/NtelDebugRing.c: the flight recorder, and the log of its appends; in
--               DebugRing/Format `ntel_debug_record_format`, with `snprintf` as a parameter; in
--               DebugRing/Interleave an append as its two accesses to the ring, among other writers; in
--               DebugRing/Daemon NtelSpoofKext/src/ntel_debug_daemon.c, whose `main` is a machine that
--               steps from one access to the ring to the next (`daemon_step`), among the accesses of
--               the writers.
--   SpoofService NtelSpoofKext/src/NtelSpoofService.cpp: `start` and the registry properties that it sets.
--
-- Widths and bounds: a 32-bit or 64-bit operation that can wrap is written with its remainder (`u32`,
-- `sub32`, `u64`). Pointers that may be NULL are options. The translation loop runs on
-- `max_instructions - inst_count`, which the code itself bounds, so no fuel is invented there;
-- `drain_ring` has fuel, and one round more than the ring holds bytes is enough; so has the loop
-- that fills the ring in the suite, for which fuel beyond the capacity is enough, and the search for
-- cycles, where twice the nodes and one is enough; `drain_engine` has that of `drain_ring`. A
-- device is asked a million times in a kernel upload, as the code does. The daemon never ends by
-- itself, so it has steps; it catches up in 1028. The other loops are over arrays of
-- fixed length or over the bytes of a block.
--
-- The environment is an argument: whether each allocation or mutex can be had, `malloc`, `fopen` and
-- what stdio answers about a file, the process id, the time, and the signal that ends the daemon. The
-- engine owns the ring of its context during a command. NTEL_DEBUG is 0, its default, so the log
-- macros are empty in the engine (Simulation/Recorder has it as an argument); the build is the one with
-- NTEL_USERMODE, but for Firmware/Kernel.
--
-- Not modelled: the simulation's teardown, its test of the firmware, its stress test of the cache
-- and its options; shaders and tools; and cache-line eviction and memory barriers, which have no
-- effect on values. The daemon's accesses may come between the two of an append;
-- `ntel_debug_ring_read` is one step.
pub mod Common
pub mod Queue
pub mod SharedRing
pub mod Memo
pub mod Engine
pub mod DebugRing
pub mod Firmware
pub mod Simulation
pub mod SpoofService
