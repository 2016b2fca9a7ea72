-- ===== src/Tests.antt =====
-- The theorems of the development on concrete inputs, and runs of the simulator.
mod Machine
mod Memory
mod Instructions
mod Numbers
mod Programs
mod Elf
mod Boot
mod Tables
