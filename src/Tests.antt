-- ===== src/Tests.antt =====
-- The theorems at concrete packets, machines and states.
mod Data
mod Wire
mod Receiving
mod Sending
mod Chatting
mod Transfers
mod Runs
mod Reordering
mod Overtaking
mod Recovering
