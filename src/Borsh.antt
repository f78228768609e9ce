-- ===== src/Borsh.antt =====
-- The schema-driven Borsh serializer of utils/borsh.js.
pub mod Types
pub mod Serialize
pub mod Reader
pub mod Deserialize
pub mod Typed
pub mod RoundTrip
pub mod Whole
pub mod Bounds
