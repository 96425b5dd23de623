-- ===== src/Config.antt =====
-- rpi_cam_app/src/config: the readers of `config.json`.
pub mod Tree
pub mod Camera
pub mod Server
pub mod Recording
pub mod Events
pub mod Program
pub mod Tests
