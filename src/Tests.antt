-- ===== src/Tests.antt =====
-- Tests of the definitions, and the theorems at concrete inputs.
pub mod Ops
pub mod Dims
mod Geometry
mod Decisions
pub mod Layers
mod Copying
mod Writing
mod Enumerating
mod Pyramidizing
mod Reporting
mod Running
pub mod Texts
mod Options
mod Composing
