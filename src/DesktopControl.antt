-- ===== src/DesktopControl.antt =====
-- desktop_control.py: the local viewers of a graphical helper.
pub mod Viewers
pub mod Reader
pub mod Output
mod Examples
mod Transfers
