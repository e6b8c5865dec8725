-- ===== src/Auth.antt =====
-- Authentication of daemon/src/auth.rs, each part in a module below.
pub mod Base64
pub mod Decodes
pub mod Claims
pub mod Scan
pub mod Jwt
pub mod Ends
pub mod Fields
pub mod Numbers
pub mod Objects
pub mod Reads
pub mod Ascii
pub mod Prints
pub mod Verifies
pub mod Signed
pub mod Sound
pub mod Commas
pub mod Registry
pub mod Sessions
mod Tests
