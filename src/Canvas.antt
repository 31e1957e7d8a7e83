-- ===== src/Canvas.antt =====
-- canvas/: addresses of turns, and the tree of turns over the trie of utils/containers.
pub mod Address
pub mod Turns
