-- ===== src/Sockets.antt =====
-- Pixie-XC/socket_functions.cpp, as it is built without USE_IPV6. `assert` is enabled.
pub mod Data
pub mod Connect
pub mod Flags
