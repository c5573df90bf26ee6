-- ===== src/Protocol.antt =====
-- domain/entity/control/protocol.go: the messages of the device protocol and their checks.
pub mod Error
pub mod Message
pub mod Status
pub mod Base64
pub mod Validate
pub mod Accepted
pub mod Attachments
