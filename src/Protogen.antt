-- ===== src/Protogen.antt =====
-- The code generator of libs/asocial_proto/libs/asocial_protogen: the names it makes, the entities
-- it reads from the .proto files, and the key and validation functions that it writes.
pub mod Names
pub mod Descriptors
pub mod Schema
pub mod Generated
