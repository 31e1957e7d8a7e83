-- ===== src/Ipc.antt =====
-- utils/ipc/status.hpp: the statuses of message transfers.
pub mod Framing
pub mod Name
pub mod Delivery

pub data Status : Type 0 where
  ok invalid_argument invalid_channel_name invalid_transport_path duplicate_channel : Status
  channel_not_found channel_unavailable not_connected message_too_large : Status
  partial_transfer io_error end_of_stream malformed_message truncated_message : Status
  unsupported_version checksum_mismatch identifier_exhausted : Status
