-- ===== src/Zend.antt =====
-- The Zend engine's hash tables, which the extension calls and does not implement, as an interface.
pub mod Key
pub mod Hash
pub mod Table
