-- ===== src/Extras.antt =====
-- extras.c: the hooks that the recompiled game calls. `Trace` is the function trace, `Args` the saved
-- arguments, `Calls`, `Loaders` and `Memmap` the hooks that save them, `Watch`, `Chain` and
-- `Wavetable` the event rings of the audio hooks, `Voices` and `Pool` the hooks that write to the
-- game's memory or silence its voices, `Waits` the replaced busy-wait, `Snapshots` the display-list
-- snapshots, `Firsts` the logs of the first calls, `Probes` the diagnostics that act once for each
-- key, `Throttles` those that print now and then, `Backtraces` the host's frames beside
-- some of these, and `Aborts` what ends the process.
pub mod Trace
pub mod Args
pub mod Aborts
pub mod Backtraces
pub mod Calls
pub mod Loaders
pub mod Memmap
pub mod Watch
pub mod Chain
pub mod Wavetable
pub mod Voices
pub mod Pool
pub mod Waits
pub mod Snapshots
pub mod Firsts
pub mod Probes
pub mod Throttles
