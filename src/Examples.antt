-- ===== src/Examples.antt =====
-- The theorems at concrete inputs.
mod Serial
mod Options
mod Codegen
mod Ports
mod Saved
mod Registry
mod Pins
mod Lists
mod Flavors
mod Daemon
mod Endless
mod Tables
