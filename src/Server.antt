-- ===== src/Server.antt =====
-- The threads of the server: Pixie-XC/Server.cpp, Worker.cpp, Listener.cpp, Monitor.cpp, Thread.cpp.
pub mod Worker
pub mod Listener
pub mod Start
pub mod System
