-- ===== src/Twc.antt =====
-- external_src/twc.c: a channel that copies bytes between two sockets, both ways in one thread.
pub mod Cbuffer
pub mod Machine
pub mod Channel
