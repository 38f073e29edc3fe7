-- ===== src/Libc.antt =====
-- What the program uses of the C library's number formatting and parsing. `int` is 32 bits wide;
-- a number out of range reads as the nearest bound, as the Windows runtime's `strtol` does.
pub mod Print
pub mod Scan
pub mod RoundTrip
