-- ===== src/Interpreters.antt =====
-- lib/CppInterOp/InterpreterInfo.h, and the registry of interpreters in
-- lib/CppInterOp/CppInterOp.cpp.
pub mod Slots
pub mod Registry
mod Tests
