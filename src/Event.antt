-- ===== src/Event.antt =====
-- rpi_cam_app/src/event: the event programs and their threads.
pub mod Processor
pub mod Handler
pub mod Lifetime
pub mod Initializer
pub mod Served
pub mod Thread
pub mod Loop
pub mod Tests
mod ThreadTests
