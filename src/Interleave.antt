-- ===== src/Interleave.antt =====
-- src/UdpDataProtocol.cpp, src/webrtc/WebRtcDataProtocol.cpp and
-- src/webtransport/WebTransportDataProtocol.cpp: the layout of the audio in a packet, channel after
-- channel, and the interleaved one of the audio interface.
pub mod Bytes
pub mod Blocks
pub mod Layouts
pub mod RoundTrip
