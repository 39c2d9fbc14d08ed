-- ===== src/Tests.antt =====
-- The theorems at concrete inputs, and runs of the programs with the output that they have.
mod Channel
mod Waiting
mod Parking
mod Mains
mod Versions
mod Values
mod Decisions
mod Contracts
mod Analyses
mod Basics
mod Lexing
mod Companions
