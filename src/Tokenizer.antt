-- ===== src/Tokenizer.antt =====
-- The tokenizer of inference/core/tokenizer.c, less the loading of vocabularies and the rendering of
-- chat templates.
pub mod Types
pub mod Lookup
pub mod Bytes
pub mod Specials
pub mod Decode
pub mod Merges
pub mod Spells
pub mod Sentence
pub mod Greedy
