-- ===== src/Tty.antt =====
-- The terminal: kernel/chr_drv.
pub mod Queue
pub mod Read
pub mod Text
pub mod Line
