-- ===== src/Std.antt =====
-- What the components use of the C++ standard library: ordered maps, sorting, exceptions.
pub mod OrderedMap
pub mod Sort
pub mod Shared
pub mod UnorderedMap
pub mod Results
