-- ===== src/Tests.antt =====
-- Concrete data: a JSON library, a digest function and servers that meet the assumptions, runs of
-- the model on them, and the theorems at these inputs.
mod Tree
mod Encoding
mod Library
mod Samples
mod Examples
mod Surroundings
mod Loads
mod Handles
mod Objects
mod Registries
mod Plugins
mod Sends
mod Running
mod Lists
