-- ===== src/Symbols.antt =====
-- lib/CppInterOp/DynamicLibraryManagerSymbol.cpp: which library has a symbol.
pub mod Filter
pub mod Contents
pub mod Registry
pub mod Ignore
pub mod Dynamic
pub mod RealPath
pub mod Scan
pub mod Search
mod Tests
