-- ===== src/Drive.antt =====
-- src/drive: the cart drive control.
pub mod Cart
