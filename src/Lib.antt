-- ===== src/Lib.antt =====
-- A verification library of JackTrip: programs that send uncompressed audio over the network.
--
-- The parts, and how they interact. On the sending side the audio callback puts samples into a ring;
-- the UDP sender takes them, puts a header in front and sends the newest packets together as one
-- datagram. On the receiving side the first datagram is validated and its settings are compared with
-- the own ones; from then on every datagram is compared with the last number read, and the packets in
-- it that are missing are handed on. Browsers reach a server over WebTransport, for which the server
-- speaks HTTP/3 itself: it reads the request with the decoder of src/http3 and answers with the frames
-- of src/webtransport. The offers and answers of WebRTC come over a TCP stream of framed messages or
-- over a WebSocket. The audio of browsers comes and goes as datagrams, a packet each. A hub server
-- admits its clients over TCP, with a user name and a password if it wants them, and keeps a worker for
-- each.
--
-- The files:
-- Base, Base/*: Boolean tests, lists and bytes on the native numbers.
-- Ring, Ring/*: src/WaitFreeRingBuffer.h. The state is `RingBuffer`; `push`, `pop`, `clear_stats`,
--   `clear`, `count` (size) and `empty` are the functions of the class. Ring/Refine has the abstract
--   queue, Ring/Threads the producer and the consumer on two threads.
-- Hub, Hub/*: src/UdpHubListener.cpp and src/JackTripWorker.cpp. The state is `Hub`, with a `Worker` or
--   nothing in each slot; `create_worker`, `release_thread`, `release_duplicate_threads`, `get_pool_id`,
--   `queue_buffer_changed` and `stop_all_threads` are the functions of the listener. Hub/Clients has the
--   events in the life of a worker (`hub_call`), Hub/Handshake the messages over TCP: `client_message` and
--   `auth_message` are what src/JackTrip.cpp sends, `ready_read`, `check_auth_and_read_port` and
--   `read_client_udp_port` what the hub does with it, and Hub/Handshake/Credentials lets Auth check the
--   credentials.
-- Auth, Auth/*: src/Auth.cpp. The state is `Auth`; `check_credentials`, `edit_user`, `delete_user`,
--   `write_file`, `load_auth_file`, `check_time` and `verify_time_format` are the functions of the class.
--   Auth/Crypt has the hash of a password: its loops over the length of the password run on that length
--   as fuel, since each round takes 64 or halves it. What Qt does is a parameter, `Qt`.
-- Audio, Audio/*: src/AudioInterface.cpp, `get_sample_rate_type` and `get_sample_rate_from_type`.
-- Header, Header/*: src/PacketHeader.h and src/PacketHeader.cpp. `fill_header_common_from_audio`,
--   `put_header_in_packet`, the `get_peer_*` getters, `validate_peer_header`, `check_peer_settings` and
--   `jam_link_fill` are the functions of the same names; `decode_num_outgoing_channels` is
--   JackTrip::getPeerNumOutgoingChannels of src/JackTrip.h.
-- Udp, Udp/*: src/UdpDataProtocol.cpp. `receive_packet_redundancy` and `get_stats` work on `Receiver`,
--   `send_packet_redundancy` on `Sender`.
-- Http3, Http3/*: src/http3/Http3Protocol.cpp. `read_varint`, `encode_quic_varint`, `read_qpack_int`,
--   `parse_http3_frame`, `decode_huffman` and `decode_qpack_headers` are the functions of the same
--   names; a position in a buffer is the list of the bytes that are left.
-- WebTransport, WebTransport/*: src/webtransport/WebTransportSession.cpp, `build_settings_frame` and
--   `build_response_frame`.
-- SlotRing, SlotRing/*: src/RingBuffer.cpp and src/RingBuffer.h. The state is `SlotRing`;
--   `ring_buffer_of` is the constructor, `insert_slot_non_blocking`, `read_slot_non_blocking`,
--   `get_slot_stats`, `underrun_reset`, `overflow_reset` and `update_read_stats` are the functions of
--   the class. SlotRing/Queue has the abstract queue, SlotRing/Blocking `insert_slot_blocking` and
--   `read_slot_blocking` on two threads.
-- Signaling, Signaling/*: src/webrtc/WebRtcSignalingProtocol.cpp, `frame_message` and
--   `extract_framed_message`.
-- WebSocket, WebSocket/*: src/webrtc/WebSocketSignalingConnection.cpp, `encode_web_socket_frame` and
--   `decode_web_socket_frame`.
-- Jitter, Jitter/*: src/JitterBuffer.cpp and src/JitterBuffer.h. The state is `JitterBuffer`, with what
--   the constructor fixes in `JitterSettings`; `jitter_settings` and `new_jitter_buffer` are the
--   constructor, `process_packet_loss`, `insert_bytes` (insertSlotNonBlocking) and `read_bytes`
--   (readSlotNonBlocking) the functions of the class. Jitter/Calls/Trace has the abstract stream.
--   Positions are words of 32 bits; the stream is followed up to 2 ^ 32 bytes, which is six hours of
--   stereo at 48 kHz and 16 bits.
-- Interleave, Interleave/*: the two loops over samples and channels that the data protocols share,
--   `interleave` of Udp/Receive and `deinterleave` of Udp/Send.
-- Web, Web/*: the audio of browsers, src/webrtc/WebRtcDataProtocol.cpp and
--   src/webtransport/WebTransportDataProtocol.cpp. A receiver of either class is a `WebReceiver`;
--   `on_datagram_received`, `process_received_packet`, `process_control_packet`, `receiver_tick` (a
--   round of runReceiver), `waited_too_long` (printWaitedTooLong) and `get_web_stats` are its functions.
--   Web/Send has the sender of WebTransport, `WebSender`, with `acquire_pool_buffer`,
--   `release_pool_buffer`, `release_send_context` and `send_packet_direct`; and `send_round`, a round
--   of runSender of WebRTC. The calls on the pool run one after the other. Values of type `int` are
--   taken not to overflow.
--
-- Fuel. The loops of `parse_http3_frame` and `decode_qpack_headers` run on as much fuel as there are
-- bytes, since a round reads at least one; that of `decode_huffman` on one more than there are bits,
-- since a round drops at least one; `push_remaining` and `to_string_loop` on the number itself, which
-- each round divides.
--
-- Parameters. `QString::fromUtf8` of Qt is an argument of the decoder, with the hypothesis that it
-- keeps ASCII as it is. What `JackTrip::writeAudioBuffer` does is an argument of the receiver. The type `double` of
-- the machine, in which the two rings track their levels, is the record `Doubles`, or `JitterDoubles`. Layouts
-- of structs are those of a little-endian machine. The `QMap` of headers is an association list, and a
-- `QByteArray` or a `QString` the list of what it holds.
--
-- Not modelled: other threads, sockets and the operating system; Qt, JACK, RtAudio, MsQuic and
-- libdatachannel; signal processing in floating point; the graphical interfaces; text printed for the
-- user.
--
-- Threads. In Ring/Threads a turn of a thread goes up to its next access to shared data, and memory is
-- sequentially consistent; the other functions of the ring run one after the other.
pub mod Base
pub mod Ring
pub mod Audio
pub mod Header
pub mod Udp
pub mod Http3
pub mod WebTransport
pub mod Signaling
pub mod WebSocket
pub mod SlotRing
pub mod Hub
pub mod Auth
pub mod Interleave
pub mod Web
pub mod Jitter
