-- ===== src/Tests.antt =====
-- Runs on concrete inputs: each applies a theorem where its conditions hold.
mod Texts
mod Streams
mod Edit
mod Net
mod Store
mod Json
mod Prompt
mod Config
