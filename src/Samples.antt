-- ===== src/Samples.antt =====
-- A store with two jobs, an executor's journal and a controller's table, and the theorems of the other
-- files at concrete inputs.
pub mod Data
pub mod Examples
pub mod Remote
pub mod RemoteExamples
pub mod BatchExamples
