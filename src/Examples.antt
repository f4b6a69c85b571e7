-- ===== src/Examples.antt =====
-- Runs at concrete inputs, and the theorems applied to inputs that meet their hypotheses.
mod Text
mod Systems
mod Streams
mod Messages
mod Config
mod Requests
mod Vectors
mod Sessions
mod Sockets
mod Rings
mod Loading
mod Channels
mod Files
mod Starting
mod Programs
mod Policies
mod Limited
mod Answered
