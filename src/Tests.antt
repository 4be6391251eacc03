-- ===== src/Tests.antt =====
-- Tests on concrete input, and the theorems at inputs that meet their hypotheses.
mod Hashing
mod Tables
mod Program
mod Session
mod Witnesses
mod States
mod Delivery
mod Rooms
mod Closing
mod Parts
mod Startup
