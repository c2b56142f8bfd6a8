-- ===== src/Values.antt =====
-- src/pypilot/values.cpp and the classes of src/pypilot/pypilot.hpp that it implements: the registry
-- that gives protocol clients named access to the data model.
pub mod Writer
pub mod Fields
pub mod Rows
pub mod Access
pub mod Lines
pub mod Watches
pub mod Due
