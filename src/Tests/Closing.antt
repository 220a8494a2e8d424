-- ===== src/Tests/Closing.antt =====
-- The message loop on a line that is no JSON.
use utx0_node.Base.{◌≡◌, refl, some, lit, [], ok, text_eq}
use utx0_node.Errors.Report.{from_error}
use utx0_node.Net.Dispatch.{Session, run_message_loop, round}
use utx0_node.Net.Dispatch.Closing.{SaysWhy, run_message_loop-SaysWhy}
use utx0_node.Net.Framing.{read_frame, write_frame}
use utx0_node.Std.Sink.{write_all, touch}
use utx0_node.Std.Trim.{trim}
use utx0_node.Std.Utf8.{is_utf8}
use utx0_node.Tests.Fixtures.{crates, memory}
use utx0_node.Tests.Loop.{session}
use utx0_node.Tests.Network.{config, stream}

abbrev noise : Session memory
noise = record (session memory []) { reader = stream (lit "x\n") }

abbrev told : Session memory
told = record (session memory []) {
  reader = stream [];
  writer = record { content = lit "{\"type\":\"Unknown\"}\n"; outcomes = [] };
}

tells : run_message_loop crates memory config 9 noise ≡ some (ok tt, told)
unfolding run_message_loop round read_frame write_frame write_all touch trim is_utf8 text_eq
    from_error
tells = refl

run_message_loop-SaysWhy_example : SaysWhy crates memory config told.writer
run_message_loop-SaysWhy_example = run_message_loop-SaysWhy crates memory config 9 noise told tells
