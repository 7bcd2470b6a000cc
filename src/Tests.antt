-- ===== src/Tests.antt =====
-- Concrete runs, and the theorems at concrete inputs.
mod Data
mod Codec
mod Stream
mod Board
mod Frames
mod Sessions
mod Video
mod Server
mod Sounds
mod Plug
mod Startup
mod Opening
mod Uplink
mod Task
mod Commands
mod Served
