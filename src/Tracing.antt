-- ===== src/Tracing.antt =====
-- lib/CppInterOp/Tracing.h, Tracing.cpp: the log of API calls from which a reproducer is written.
pub mod Names
pub mod Info
pub mod Buffer
pub mod Calls
pub mod Timers
pub mod Output
pub mod Literals
pub mod Signatures
mod Tests
