-- ===== src/CurrentControl.antt =====
-- src/current_control: what the interrupts and the threads of the current control share.
pub mod Mailbox
pub mod SeqLock
