-- ===== src/Inet.antt =====
-- trusted/inet_pton_ntop.c: text and binary forms of network addresses.
pub mod Digits
pub mod Pton4
pub mod Ntop4
pub mod Pton6
pub mod Ntop6
pub mod Convert
mod Examples
