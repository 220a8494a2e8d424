-- ===== src/Net/Handshake.antt =====
-- src/protocol/handshake.rs: how a connection begins. The proofs are in the module below.
pub mod Greetings
use utx0_node.Base.{
  Bool, true, false, Option, none, some, Text, lit, ◌++◌, Result, ok, err, map_err,
}
use utx0_node.Config.{Config}
use utx0_node.Errors.{ProtocolError, invalid_handshake, io}
use utx0_node.Exec.{Exec, ◌>>=◌, ◌>>◌, pure, lift}
use utx0_node.Message.{Message, hello, mk_hello, mk_getpeers, mk_error}
use utx0_node.Net.Crates.{NetCrates}
use utx0_node.Net.Framing.{Reader, read_frame, write_frame}
use utx0_node.Std.Sink.{Sink}

-- The two halves of the connection.
pub record Halves : Type 0 where
  pub reader : Reader
  pub writer : Sink

module _ (c : NetCrates) where
  -- `write_frame(&mut writer, &msg).await?`
  pub write : Message → Exec Halves ProtocolError (Unit {0})
  write msg h = let (r, writer) = write_frame c msg h.writer in (r, record h { writer = writer })

  -- `timeout(delay, read_frame(&mut reader)).await.map_err(|_| InvalidHandshake)??`
  pub read_timed : Bool → Exec Halves ProtocolError Message
  read_timed true h = (err invalid_handshake, h)
  read_timed false h = let (r, reader) = read_frame c h.reader in (r, record h { reader = reader })

  expected_hello : Message → Message
  expected_hello other =
      mk_error (lit "INVALID_HANDSHAKE") (lit "expected Hello, got " ++ c.debug other)

  -- `match hello`, of `inbound`
  accept : Message → Exec Halves ProtocolError (Unit {0})
  unfolding write expected_hello
  accept (hello port user_agent) = pure tt
  accept other = do write (expected_hello other); lift (err invalid_handshake)

  -- `match their_hello`, of `outbound`
  accept_reply : Message → Exec Halves ProtocolError (Unit {0})
  accept_reply (hello port user_agent) = pure tt
  accept_reply other = lift (err invalid_handshake)

  module _ (config : Config) where
    our_hello : Message
    our_hello = mk_hello config.port config.user_agent

    -- `timed_out` tells whether the peer let the delay pass.
    unfoldable pub inbound : Bool → Exec Halves ProtocolError (Unit {0})
    unfolding read_timed accept write our_hello
    inbound timed_out = do
      first ← read_timed timed_out
      accept first
      write our_hello
      write mk_getpeers

    unfoldable pub greet : Bool → Exec Halves ProtocolError (Unit {0})
    unfolding read_timed accept_reply write our_hello
    greet timed_out = do
      write our_hello
      reply ← read_timed timed_out
      accept_reply reply
      write mk_getpeers

    -- The outcome of `TcpStream::connect` is given.
    unfoldable pub outbound :
        Bool → Result Text Halves → Result ProtocolError (Unit {0}) × Option Halves
    unfolding greet
    outbound timed_out (ok h) = let (r, h') = greet timed_out h in (r, some h')
    outbound timed_out (err e) = (err (io e), none)
