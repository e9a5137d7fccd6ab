-- ===== src/Ui.antt =====
-- src/ui: what the handlers put on the screen, and the buttons.
pub mod Format
pub mod Texts
pub mod Amounts
pub mod Screens
pub mod Events
pub mod Io
pub mod Menu
pub mod Approval
pub mod Memory
pub mod Scroll
