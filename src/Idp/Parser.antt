-- ===== src/Idp/Parser.antt =====
-- Reading a description (rpiidp/src/parser.cpp).
pub mod Texts
pub mod Version
pub mod Json
pub mod State
pub mod Compat
pub mod Describe
pub mod Load
pub mod Triple
pub mod Accepted
pub mod Loaded
pub mod Layout
