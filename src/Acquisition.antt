-- ===== src/Acquisition.antt =====
-- contexts/data_acquisition: the catalogue of data sets and variables, and the jobs that fetch data.
pub mod Json
pub mod Types
pub mod Events
pub mod Catalog
pub mod Job
pub mod Database
pub mod Handlers
pub mod Features
pub mod Validation
pub mod Import
pub mod Execute
pub mod Versions
mod Tests
