-- ===== src/Config.antt =====
-- framework/config: the description of a rack, and its reading from JSON.
pub mod Description
pub mod Document
pub mod Assembler
