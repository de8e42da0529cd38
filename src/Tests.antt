-- ===== src/Tests.antt =====
-- The theorems at concrete inputs.
mod Inputs
mod Requests
mod Connections
mod Rounds
mod Workers
mod Blocking
mod Polling
mod Selecting
mod Running
