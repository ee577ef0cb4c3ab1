-- ===== src/Tests.antt =====
-- The theorems at concrete inputs.
mod Data
mod Queue
mod Tables
mod People
mod Requests
mod Services
mod Rounds
mod Walks
mod Lists
mod Served
mod Scripts
mod Asked
mod Copied
mod Gone
