-- ===== src/Tests.antt =====
-- Concrete instances of the parameters, and each theorem at a concrete input.
pub mod Toy
pub mod Codec
pub mod Backend
pub mod Curve
mod Fixtures
mod Services
mod Wrap
mod Unwrap
mod Threshold
mod Custody
mod Attenuate
mod Macaroon
mod Transparency
mod Store
mod Broker
