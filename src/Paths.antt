-- ===== src/Paths.antt =====
-- lib/CppInterOp/Paths.h and lib/CppInterOp/Paths.cpp: lists of paths in environment variables, and
-- the include paths of the compiler.
pub mod Split
pub mod Includes
pub mod System
mod Tests
