-- ===== src/Drivers.antt =====
-- kernel/src/drivers: the UTF-8 decoder of the console.
pub mod Utf8
pub mod Echo
