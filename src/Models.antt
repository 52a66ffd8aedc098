-- ===== src/Models.antt =====
-- models/*.py: the data of the program, one child module for each group of models.
pub mod Enums
pub mod Hunger
pub mod Synthesis
pub mod Validation
pub mod Refactor
pub mod Mission
pub mod Planning
pub mod Worker
