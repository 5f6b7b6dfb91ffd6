-- ===== src/Presentation.antt =====
-- presentation: the terminal display (presentation/presentation.go and presentation/termbox.go).
pub mod Screen
pub mod Ui
