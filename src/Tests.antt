-- ===== src/Tests.antt =====
-- The theorems at concrete inputs, over an engine and an operating system that keep their state in
-- memory.
mod Memory
mod Disk
mod Metadata
mod Callbacks
mod Ends
mod Requests
mod Consistency
mod Threads
mod Logging
