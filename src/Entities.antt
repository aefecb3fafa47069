-- ===== src/Entities.antt =====
-- ingestion/fineract_ingest/entities.py: the mappers and the registry of entities.
pub mod Cells
pub mod Products
pub mod Clients
pub mod Loans
pub mod Spec
pub mod Registry
pub mod Keys
pub mod Columns
