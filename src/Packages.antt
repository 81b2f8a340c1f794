-- ===== src/Packages.antt =====
-- crates/tinox/src/pm.rs: the package manager's manifest, lock file, resolution and checksums.
pub mod Types
pub mod Strings
pub mod Manifest
pub mod Resolve
pub mod Pinning
pub mod Addresses
pub mod Sections
pub mod Locations
pub mod Base64
pub mod Decoding
pub mod Envelope
pub mod Fields
pub mod Render
pub mod RoundTrip
pub mod Tables
mod Examples
