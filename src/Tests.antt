-- ===== src/Tests.antt =====
-- The theorems at concrete inputs, and runs of the definitions.
mod Scaled
mod Spatial
mod Play
mod Arrival
mod Messages
mod Wire
mod Logins
mod Chats
mod Threads
mod Server
