-- ===== src/Sections.antt =====
-- src/sections.cpp: which code file occupies which addresses, and the functions that the port puts
-- in the runtime's map. The log output and the report of a failed lookup are not modelled.
pub mod FileTable
pub mod Registry
pub mod Table
pub mod Functions
mod Tests
