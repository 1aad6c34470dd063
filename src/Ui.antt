-- ===== src/Ui.antt =====
-- internal/ui: what the terminal display makes of the manager's rows.
pub mod Sort
pub mod Input
pub mod Dissolve
pub mod Model
pub mod Menu
pub mod Actions
pub mod Editors
pub mod Keys
pub mod Columns
pub mod Mouse
pub mod Click
pub mod Update
pub mod Cursor
pub mod WellFormed
pub mod Selection
pub mod Quit
mod Tests
