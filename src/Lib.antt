-- ===== src/Lib.antt =====
-- Hybrid Heaven: Recompiled, a native port of a Nintendo 64 game. The game's own code is recompiled
-- from the cartridge; the port supplies what the console's hardware did. This library models the
-- port's own C++ and proves what makes its parts correct.
--
-- The parts, with paths from the repository's root:
--
-- Pak is src/controller_pak.cpp, the 32 KiB of each Controller Pak and its file. `Pak.Format` is
-- `format_empty`, `Pak.Disk` the file system as the code uses it, `Pak.Store` the globals and the
-- operations. The rest of the port calls it from the joybus (Wire) and, to flush, from the main
-- loop.
-- Wire is src/si_pak.cpp, `__osSiRawStartDma` and the transactions on it. `Wire.Memory` is RDRAM as a
-- parameter, since its macros are the recompiler's; `Wire.Crc` is `data_crc`, `Wire.Frame` the
-- handlers. It reads and writes the paks, and calls the rumble of src/callbacks.cpp.
--
-- Sections is src/sections.cpp and include/hh/file_table.h. `Sections.FileTable` is the table,
-- `Sections.Registry` `announce_load` and the two loader hooks, `Sections.Functions` what
-- `register_runtime_functions` puts in librecomp's map. The recompiled loaders are a parameter, since
-- they are the game's code.
-- Hud is include/hh/hudid.h (`Hud.Identity`) and src/hudrewrite.cpp: `Hud.Writer` is `Writer` without
-- `copy_list`, `Hud.Copy` is `copy_list` and `Hud.Rewrite` is `rewrite`. RT64's macros are the record
-- of `Hud.Gbi`, and the class of a name is a function. The loop of `copy_list` recurs on the rounds of
-- its own guard, 40,000, and its recursion on the calls that may still nest, 10, so both ends of the
-- code are those of the model.
-- Rom is src/rom.cpp and include/hh/rom.h: `Rom.Header` is `read_header`, over what the file system
-- answers, and `Rom.Verify` is `verify`.
-- Audio is the part of src/callbacks.cpp on sound and the rates of src/resample.cpp: `Audio.Sample`
-- is what is done to a buffer, `Audio.Rate` the resampler without its filter, `Audio.Device` the
-- globals and the functions that the runtime calls. What SDL answers is an argument of each call.
-- Script is src/testdrive.cpp, the scripted input of test runs: `Script.Buttons` is `parse_buttons`,
-- `Script.Entries` the loading of a script and `input_script_state`.
-- Libultra is src/libultra_stubs.cpp and src/spin_yield.cpp: `Libultra.Convert` has the conversions,
-- over doubles seen through their truncation, `Libultra.Spin` the timeout.
-- Inspector is src/inspector.cpp: `Inspector.Overrides` has the tables of classes and hud.json, which
-- Hud's rewriter asks for the class of a name through `class_for`, `Inspector.Panel` what the panel and
-- the test hook change of them, and `Inspector.Frames` the frames that Census feeds and the panel lists.
-- Census is src/dlcensus.cpp: `Census.State` is its state, `Census.Commands` and `Census.Feeding` what
-- each command does, `Census.Walk` the walk and the functions that start it. Its doubles and the text
-- that it formats are the parameters `Floats` and `Texts`. The walk recurs on the rounds of its guard,
-- 200,000, and on the depths left, 13, so both ends of the code are those of the model. It names
-- elements as the rewriter does, through `Hud.Identity`.
-- AudioDiag is src/audiodiag.cpp: `AudioDiag.Window` the counters of a window and its verdict,
-- `AudioDiag.Wav` the dump, `AudioDiag.Calls` what the sound output calls.
-- Start is src/main.cpp: `Start.Paths` the directories, `Start.Main` the command line and the run, as a list
-- of actions. It refuses dumps by Rom.
-- Renderer is the way of a display list: `Renderer.Submit` is `CensusContext` of src/frontend.cpp, which
-- runs the census and the rewriter before the renderer inside, `Renderer.Context` that of
-- src/renderer.cpp, with its calls of RT64 as values, `Renderer.Autostart` the automatic start, and
-- `Renderer.Submitted` proves where a frame writes and which list it hands on.
-- Mods is src/mods.cpp, the texture packs that are on; the order of the mods is librecomp's.
-- Diagnostics is `Diagnostics.Hang` and `Diagnostics.Crash`, src/crash_handler.cpp, and
-- `Diagnostics.Sampler`, src/thread_sampler.cpp, in the build for Windows. Rsp arms the watchdog.
-- Rsp is the part of src/callbacks.cpp on RSP tasks: `Rsp.Task` chooses the microcode, `Rsp.Watched` is
-- `asp_main_watched` and `Rsp.Bisect` the search in a task that failed. The recompiled microcode, which
-- runs while the game's threads do, is any function of the memories.
-- Platform is the rest of src/callbacks.cpp: `Platform.Pads` and `Platform.Input` are the pads and what is
-- read of them, `Platform.Window` the size of the window and `Platform.Loop` the main loop, which flushes
-- the paks of Pak.
--
-- Not modelled: the windows, the menus and the settings pages of src/frontend.cpp and the calls of SDL
-- in src/callbacks.cpp, which call SDL, RT64 and librecomp; the system's calls in the diagnostics; the
-- drawing of src/inspector.cpp's panel; the filter of src/resample.cpp; floating point, which is a
-- parameter where the code uses it; log output everywhere.
--
-- The dump of the sound and hud.json are written on a disk that takes every write. The watchdog's look,
-- which loads the deadline, disarms and reports, is one step. The resident image, which librecomp has
-- registered before the port's functions, is any map from addresses to functions.
--
-- Numbers are natural numbers with the wrap of each machine type written out; C's `int` is `ℤ` where
-- the code tests for negative values. Loops over fixed ranges recur on the rounds left.
pub mod Audio
pub mod AudioDiag
pub mod Census
pub mod Diagnostics
pub mod Hud
pub mod Inspector
pub mod Libultra
pub mod Mods
pub mod Pak
pub mod Platform
pub mod Prelude
pub mod Renderer
pub mod Rom
pub mod Rsp
pub mod Script
pub mod Sections
pub mod Start
pub mod Wire
