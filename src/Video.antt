-- ===== src/Video.antt =====
-- rpi_cam_app/src/video: the recorded files and the clips made of them.
pub mod Lookup
pub mod Clips
pub mod Selection
pub mod Ascending
pub mod Sorting
pub mod Directory
pub mod Recorder
pub mod Recording
pub mod Media
pub mod Copying
pub mod Initializer
pub mod Tests
mod RecorderTests
