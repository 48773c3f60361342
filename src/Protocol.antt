-- ===== src/Protocol.antt =====
-- custom_components/bthome_writable/protocol.py and the constants it takes from const.py.
pub mod Const
pub mod Walk
pub mod Integers
pub mod Kinds
pub mod Declaration
pub mod Text
pub mod Sealing
pub mod Stored
