-- ===== src/Quic.antt =====
-- src/quic: the QUIC client. A module for each of its files that is modelled.
pub mod Varint
pub mod Ranges
pub mod Received
pub mod Frame
pub mod Ack
pub mod PacketNumber
pub mod StreamId
pub mod Header
pub mod Transport
pub mod Recovery
pub mod RecvStream
pub mod SendStream
