-- ===== src/Client.antt =====
-- src/pypilot/client.cpp: the client of the protocol: the text of its lines, the watches it
-- remembers, the lines it keeps while it has no connection, the object that sends, and its callbacks.
pub mod Records
pub mod Watches
pub mod Pending
pub mod Session
pub mod Callbacks
pub mod Polls
pub mod Link
