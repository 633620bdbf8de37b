-- ===== src/Config.antt =====
-- The resolver of the configuration, src/config/ConfigResolver.cpp. An error message is the place it
-- names and what is wrong there.
pub mod Auth
pub mod Cache
pub mod Tls
