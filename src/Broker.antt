-- ===== src/Broker.antt =====
-- The listeners of src/broker, and the calls that they make of their handler.
pub mod Calls
pub mod Keybase
pub mod Grinbox
pub mod Mwcmqs
mod Tests
