-- ===== src/Wire.antt =====
-- The protobuf codecs of x/hal/types/*.pb.go: what the store and the messages look like as bytes.
pub mod Result
pub mod Reader
pub mod Writer
pub mod Gogo
pub mod Ticket
pub mod RedeemRequest
pub mod TokenMeta
pub mod Params
pub mod Varint
pub mod VarintRead
pub mod Encoding
pub mod Cases
pub mod Reads
pub mod Fails
pub mod Ends
