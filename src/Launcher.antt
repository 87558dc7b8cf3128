-- ===== src/Launcher.antt =====
-- src/main: the program that finds the actions beside it and starts one of them.
pub mod FindActions
pub mod CommandLine
pub mod Slots
pub mod Names
pub mod Choice
pub mod Utf8
pub mod Sequences
pub mod Distance
pub mod Bound
pub mod Similar
pub mod Rows
