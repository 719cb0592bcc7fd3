-- ===== src/Settings.antt =====
-- lib/settings/: the settings of a drive.
mod Store
mod Ports
