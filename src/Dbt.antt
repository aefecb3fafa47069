-- ===== src/Dbt.antt =====
-- scripts/validate_dbt_sql.py: the dbt project is built and tested on an embedded engine.
pub mod Order
pub mod Fuel
pub mod Dependencies
pub mod Acyclic
pub mod Engine
pub mod Build
pub mod Passing
pub mod Verdict
pub mod SchemaTests
pub mod Script
