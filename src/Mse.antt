-- ===== src/Mse.antt =====
-- crates/zerem-mse/src: the encrypted opening of a peer connection.
pub mod Rc4
pub mod Dh
pub mod Link
pub mod Handshake
