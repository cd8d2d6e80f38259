-- ===== src/Marshal.antt =====
-- marshaller.go: payloads to and from the binary format of the thin client protocol.
pub mod Types
pub mod Writer
pub mod Encoding
pub mod Writes
pub mod Reader
pub mod Canon
pub mod Scalars
pub mod RoundTrip
pub mod TypeId
mod Tests
