-- ===== src/Errors.antt =====
-- src/error.rs: the errors of the protocol.
pub mod Report
use utx0_node.Base.{Text, lit, ◌++◌}
use utx0_node.Storage.Errors
use utx0_node.Storage.Errors.{StorageError}

pub data ProtocolError : Type 0 where
  invalid_format invalid_handshake : ProtocolError
  io : Text → ProtocolError
  connection_closed oversized_frame : ProtocolError
  storage : StorageError → ProtocolError

-- `From<std::io::Error>`, which `?` calls.
abbrev pub from_io : Text → ProtocolError
from_io e = io e

unfoldable pub to_string : ProtocolError → Text
unfolding Errors.to_string
to_string invalid_format = lit "invalid format"
to_string invalid_handshake = lit "invalid handshake"
to_string (io e) = lit "I/O error: " ++ e
to_string connection_closed = lit "connection closed"
to_string oversized_frame = lit "frame too large (max 512 KiB)"
to_string (storage e) = lit "storage error: " ++ Errors.to_string e
