-- ===== src/Runner.antt =====
-- main.cpp: the start-up in Boot, the small callbacks in Callbacks, the choice of the ROM, the input and
-- audio callbacks, the gamepad and the window in Devices, and the crash filter in Crash.
pub mod Input
pub mod Audio
pub mod Turbo
pub mod Rom
pub mod Crash
pub mod Boot
pub mod Callbacks
pub mod Devices
