-- ===== src/Http3.antt =====
-- src/http3: the HTTP/3 wire protocol.
pub mod Outcome
pub mod Varint
pub mod QpackInt
pub mod Frame
pub mod StaticTable
pub mod HuffmanTable
pub mod Huffman
pub mod Headers
mod Tests
