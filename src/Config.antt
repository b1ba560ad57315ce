-- ===== src/Config.antt =====
-- internal/config: the settings of the application.
pub mod Settings
