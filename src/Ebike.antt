-- ===== src/Ebike.antt =====
-- lib/ebike and src/ebike: the receiver of the display line, the frames of the display, the pedal sensor, the
-- assist law and the control that joins them.
pub mod EdgeUart
pub mod Kunteng
pub mod Assist
pub mod Pedal
pub mod Control
