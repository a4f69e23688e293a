-- ===== src/Tests.antt =====
-- Runs of the model on concrete inputs, and the theorems at inputs that meet their hypotheses.
pub mod Dictionary
pub mod Utility
pub mod Http
pub mod Disk
pub mod Plugin
pub mod Wrapper
pub mod Token
pub mod LuaHeap
pub mod Nodes
pub mod Release
pub mod Sessions
pub mod Overwriting
pub mod Script
pub mod Attach
pub mod Explorer
pub mod Ui
pub mod Searches
