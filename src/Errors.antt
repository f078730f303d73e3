-- ===== src/Errors.antt =====
-- include/CppInterOp/Error.h, lib/CppInterOp/ErrorInternal.h and lib/CppInterOp/ErrorInternal.cpp:
-- fallible results, the errors that they carry and the diagnostics that Clang leaves behind.
pub mod Encoding
pub mod Slices
pub mod Ownership
pub mod Results
pub mod Diagnostics
pub mod Producers
mod Tests
