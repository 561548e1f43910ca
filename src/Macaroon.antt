-- ===== src/Macaroon.antt =====
-- services/secret-broker/src/secret_broker_impl/macaroon_caveats.rs: chained-HMAC macaroons.
-- The types stand here; the operations are in the modules below, in the order of the file.
pub mod Types
pub mod Caveat
pub mod Chain
pub mod Discharge
pub mod Verifier
pub mod Wire
pub use Types.*
