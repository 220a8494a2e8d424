-- ===== src/Errors/Report.antt =====
-- src/error.rs: the message that reports an error to the peer.
use utx0_node.Base.{lit}
use utx0_node.Storage.Errors
use utx0_node.Errors.{
  ProtocolError, invalid_format, invalid_handshake, io, connection_closed, oversized_frame, storage,
  to_string,
}
use utx0_node.Message.{Message, mk_error}

-- `From<ProtocolError> for Message`
unfoldable pub from_error : ProtocolError → Message
from_error invalid_format = mk_error (lit "INVALID_FORMAT") (to_string invalid_format)
from_error invalid_handshake = mk_error (lit "INVALID_HANDSHAKE") (to_string invalid_handshake)
from_error connection_closed = mk_error (lit "CONNNECTION_CLOSED") (to_string connection_closed)
from_error (io e) = mk_error (lit "IO_ERROR") (to_string (io e))
from_error oversized_frame = mk_error (lit "OVERSIZED_FRAME") (to_string oversized_frame)
from_error (storage inner) = mk_error (lit "INTERNAL_STORAGE_ERROR") (Errors.to_string inner)
