-- ===== src/Usb.antt =====
-- ameba_gateway/example_gateway_ameba.c: the vendor bulk device that relays the stream to the host.
pub mod Queue
pub mod Ring
pub mod State
pub mod Stream
pub mod Device
pub mod Host
pub mod Relay
pub mod Events
