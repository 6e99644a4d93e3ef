-- ===== src/Examples.antt =====
-- Runs of the model on concrete inputs, and the theorems at inputs that meet their conditions.
mod Startup
mod Floats
mod Elf
mod Machines
mod Stacks
mod Loops
mod Numbers
mod Lines
mod Code
mod Words
mod Bytes
mod Queries
mod Records
mod Objects
mod Paths
mod Does
