-- ===== src/Libraries.antt =====
-- lib/CppInterOp/DynamicLibraryManager.h and DynamicLibraryManager.cpp: finding shared libraries,
-- loading and unloading them, as built on Linux.
pub mod Manager
pub mod Lookup
pub mod Loading
mod Tests
