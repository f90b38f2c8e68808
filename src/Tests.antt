-- ===== src/Tests.antt =====
-- Tests, and the theorems at concrete inputs.
mod Blk
mod Twc
mod Queue
mod Server
mod Buffers
mod Http
mod Proxy
mod Programs
mod System
mod Tunnel
mod Journey
mod Pool
mod Sockets
