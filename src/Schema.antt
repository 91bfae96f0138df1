-- ===== src/Schema.antt =====
-- selfhost_models/scheduler_schema.py, schema.py and capabilities.py: the public and operator
-- documents, and the checks that their validators make.
pub mod Text
pub mod Deployment
pub mod Chat
pub mod Capabilities
pub mod Job
