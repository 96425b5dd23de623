-- ===== src/Rtsp.antt =====
-- rpi_cam_app/src/rtsp: the RTSP server.
pub mod Target
pub mod Session
pub mod Requests
pub mod Lifecycle
pub mod Ending
pub mod Listener
pub mod Listening
pub mod Quiet
pub mod Crowd
pub mod Sdp
pub mod Description
pub mod Pads
pub mod File
pub mod Playing
pub mod Cached
pub mod First
pub mod Ownership
pub mod Live
pub mod Broadcast
pub mod Startup
pub mod Feed
pub mod Clock
pub mod Streaming
pub mod Connections
mod Tests
mod ListenerTests
mod StreamTests
pub mod LiveTests
