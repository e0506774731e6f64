-- ===== src/Examples.antt =====
-- The theorems at concrete inputs, and runs of the definitions on the inputs of the source's tests.
mod Samples
mod Parsers
mod Formats
mod Nodes
mod Transforms
mod Stores
mod Tests
mod Engine
mod Requests
mod Backup
mod Lists
mod Reload
