-- ===== src/DebugServer.antt =====
-- src/main/debug_server.cpp: the TCP debug server. `State` has the globals and what the server
-- reads of the runtime, `Json` the field extraction, `Input` the commands that drive the pad,
-- `History` the input ring, `Queries`, `Mesg`, `Ultra` and `Memory` the read-only commands,
-- `Oracle` those of the Ares bridge, `Dispatch` the command ladder, `Lines` the framing
-- of a connection, and `Server` the loop over the clients, `start` and `shutdown`.
pub mod State
pub mod Json
pub mod Input
pub mod Render
pub mod History
pub mod Queries
pub mod Memory
pub mod Lines
pub mod Events
pub mod Ultra
pub mod Reports
pub mod Dispatch
pub mod Server
pub mod Oracle
