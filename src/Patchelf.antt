-- ===== src/Patchelf.antt =====
-- bitcoin-core/patchelf-0.9: src/patchelf.cc, and the part of src/elf.h that it reads
pub mod Word
pub mod Elf
pub mod Result
pub mod File
pub mod Section
pub mod Parse
pub mod Interpreter
pub mod Compare
pub mod Options
pub mod Dynamic
pub mod Needed
pub mod Headers
pub mod Rewrite
pub mod Refer
pub mod Soname
pub mod Rpath
pub mod Stored
pub mod Patch
pub mod Program
mod Tests
