-- ===== src/Udp.antt =====
-- src/UdpDataProtocol.cpp: the redundant packets of the UDP protocol.
pub mod Gap
pub mod Receive
pub mod Send
