-- ===== src/Exchange.antt =====
-- The client of src/pypilot/client.cpp and the server of src/pypilot/server.cpp together: what one
-- of them makes of the lines that the other writes.
pub mod Words
pub mod Assign
pub mod Set
pub mod Toggle
pub mod Mirror
pub mod Quoted
pub mod Relayed
pub mod InStep
pub mod Polled
pub mod Whole
pub mod Streamed
pub mod Following
pub mod Flow
pub mod Watching
pub mod Watch
