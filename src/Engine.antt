-- ===== src/Engine.antt =====
-- NtelSpoofKext/src/NtelTranslationEngine.c and include/NtelTranslationEngine.h.
pub mod Hash
pub mod Mask
pub mod Isa
pub mod Translate
pub mod Cache
pub mod Command
pub mod Cycle
mod Tests
