-- ===== src/Tests.antt =====
-- Runs of the definitions on concrete values, and the theorems at concrete inputs.
mod Words
mod Folding
mod Blocks
mod Pages
mod Passes
mod Dead
mod Vectors
mod Buffer
mod Encoders
mod Building
