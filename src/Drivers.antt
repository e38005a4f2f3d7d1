-- ===== src/Drivers.antt =====
-- The device drivers: drivers/ide.c.
pub mod Device
pub mod Ide
pub mod Screen
pub mod Keyboard
