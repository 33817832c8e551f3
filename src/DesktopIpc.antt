-- ===== src/DesktopIpc.antt =====
-- src/desktop/ipc-client.ts: the connection to the desktop program.
pub mod Frames
pub mod Bytes
pub mod Copies
pub mod Rounds
pub mod Chunks
pub mod Delivery
pub mod RoundTrip
