-- ===== src/Hardware.antt =====
-- hardware: the parts of the platforms that hold logic of their own.
pub mod Slcan
