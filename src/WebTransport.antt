-- ===== src/WebTransport.antt =====
-- src/webtransport: WebTransport sessions over HTTP/3.
pub mod Response
mod Tests
