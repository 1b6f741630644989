-- ===== src/Screen.antt =====
-- kernel/screen.c, by its parts.
pub mod Cursor
pub mod Scrolling
pub mod Printing
