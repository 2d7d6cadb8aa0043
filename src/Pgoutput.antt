-- ===== src/Pgoutput.antt =====
-- src/pgoutput.rs: the decoder of the pgoutput protocol, and its grouping into transactions.
pub mod Types
pub mod Reader
pub mod Decode
pub mod Decoder
pub mod Reads
pub mod Encode
pub mod RoundTrip
pub mod Stream
pub mod Cache
mod Tests
