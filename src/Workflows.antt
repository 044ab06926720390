-- ===== src/Workflows.antt =====
-- graph/workflows/engine.py: declarative recipes.
pub mod Template
pub mod Engine
pub mod Cycles
pub mod Validate
pub mod Inputs
