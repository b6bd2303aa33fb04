-- ===== src/Lib.antt =====
-- Models of StrangeIO, a C++ framework for a virtual audio rack (framework/).
--
-- The rack holds units. A unit has labelled inputs and outputs; a mainline socket of the rack leads
-- to the first unit of a line, and units pass sync profiles, cycles and blocks of samples on to the
-- units behind their outputs. Blocks come from a cache that the rack builds at its first global
-- sync and are owned by cache pointers. A JSON document describes the rack.
--
-- Files, and the code that each is about:
--   Buffer/Circular      framework/include/framework/buffer/circular.hpp
--   Buffer/Delay         framework/buffer/delay.cpp
--   Buffer/Normalised    framework/staging/buffer/NormalisedSizeBuffer.cpp
--   Memory/Manager       framework/memory/cache_manager.cpp: `alloc_raw`, `free_raw`, `build_cache`
--   Memory/CachePtr      framework/memory/cache_ptr.cpp and cptr_utility.cpp, over the interface
--                        `CacheUtility`, which `cache_manager` fills
--   Memory/Samples       the copies of samples of cache_ptr.cpp, into and out of the cache's memory
--   Component/Registrable  framework/component/registrable.cpp and registry.cpp
--   Component/Profile    framework/include/framework/component/component.hpp, and
--                        `register_metric` and `apply_unit_profile` of framework/component/unit.cpp
--   Component/Linkable   framework/component/linkable.cpp
--   Component/Unit       the members of a unit, the units of a rack together (`World`), and what a
--                        client's unit class implements (`Hooks`)
--   Component/Sync       `sync_line` of unit.cpp and of framework/spec: one function for each class
--                        and branch, and `sync_line` itself for the virtual call
--   Component/Cycle      `cycle_line` of unit.cpp
--   Component/Mount      framework/component/mount.cpp
--   Component/Rack       framework/component/backend.cpp and rack.cpp
--   Config/Description, Config/Document  framework/include/framework/config/description.hpp and
--                        framework/config/document.cpp
--   Routine/Sound        framework/routine/sound.cpp, for arrays and for cache pointers
--   Component/Exports    the MIDI members of a unit (framework/component/unit.cpp)
--   Component/Loader     framework/component/unit_loader.cpp and
--                        framework/include/framework/dynlib/linux_library.hpp
--   Config/Assembler     framework/config/assembler.cpp: a rack from a description
--   Thread/Pump          framework/threads/pump.cpp, its calls as one sequence
--   Thread/Worker        framework/threads/worker.cpp, with the thread that hands packages to it
--   Thread/Pool          framework/threads/pool.cpp
--   Thread/Queue         framework/threads/queue.cpp, over the pump and the pool, by threads
--   Thread/Scheduled     framework/threads/scheduled.cpp: an object and its thread
--   Midi/Device          framework/midi/device.cpp
--   Midi/Handler         framework/midi/midi_handler.cpp
--   Event/Listeners      the listeners of framework/events/loop.cpp, and event_utility.cpp
--   Event/Loop           `add_event` and `cycle_events` of framework/events/loop.cpp, by threads
-- Under a component's file its lemmas stand in files named for what they prove. Common holds what
-- the components share: tests on numbers, lists with native indices, the Option monad whose `none`
-- is undefined behaviour (an access outside an array, a null pointer, a division by zero), and
-- integers.
--
-- State and operations. Each class is a record of its members, without the leading `m_`, and a
-- method is a function that takes the record and gives it back. A pointer to a handle, a unit or a
-- port is its position; the address of a block is a number. The units of a rack are one list in a
-- `World`, since they call one another; a call of a unit takes the world and gives it back. The
-- profile that `sync_line` takes by reference is given back next to the world.
--
-- Threads. Of the event loop every thread has its point in `add_event` or `cycle_events`, and
-- `Step` (`WorkerStep` for a worker, `QueueStep` for a queue with its workers) relates the states
-- before and after one thread goes on; memory is sequentially consistent, and a wait on a condition
-- may end at any time, notified or not.
-- `Ghost` of Event/Loop/Inv names who holds each node and who has to cycle the list; it is part of
-- the proofs, not of the state. The history of messages put into the list and handed out is.
--
-- Bounds. `unsigned int` and `size_t` wrap at 2^32 and 2^64, written `% u32_mod` and `% u64_mod`.
-- `int` is an integer without bounds, since overflow is undefined. `float` is the parameter
-- `FloatOps`, with no law assumed.
--
-- Fuel. `sync_line` and `cycle_line` recurse along links, which could form a cycle: fuel bounds
-- the depth of the calls. On lines without cycles fuel above the rank of the first unit is enough
-- for every sync and cycle, and fuel above the number of units passed for a line sync. `run_queue`
-- of the rack takes fuel for its rounds, as units may ask for more of them.
--
-- Parameters. `Hooks` is what a client's units do; `Json` is picojson; `Dynlib` is files, `dlopen`
-- and `dlsym`; `Driver` is the opening of MIDI ports; `SchedOs` is the scheduling calls of the
-- operating system; `set_configuration` is a client's; what `new` returns and what fresh memory
-- holds are arguments.
--
-- Not modelled: log lines; what units do with samples; the end of the threads of the rack and of
-- the event loop, and a second start of a queue; what ALSA does; the velocities of
-- framework/routine/midi.cpp and the set-up of framework/routine/system.cpp; the copies of picojson
-- and Catch; the telemetry and LV2 hosting of framework/staging and the tests.
pub mod Common
pub mod Buffer
pub mod Component
pub mod Memory
pub mod Routine
pub mod Config
pub mod Thread
pub mod Midi
pub mod Event
