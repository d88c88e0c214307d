-- ===== src/Convertors.antt =====
-- namespace utils::convertors (src/tcpclientapp.cpp): files of three types, and the ways between them.
pub mod Ds8
pub mod Hex
pub mod Print
