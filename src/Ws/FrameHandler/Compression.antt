-- ===== src/Ws/FrameHandler/Compression.antt =====
-- What the handlers make of the extension bit.
use wust_socket.Prelude.{ℕ, ◌≡◌, arith, none, Bool}
use wust_socket.Channel.{Inflater}
use wust_socket.Role.{Role}
use wust_socket.Protocol.Mask.{MaskKey}
use wust_socket.Frames.Opcode.{Opcode}
use wust_socket.Frames.Decode.Parse.{DecodedFrame}
use wust_socket.Ws.FrameHandler.{
  Conn, handle_data, handle_frame, by_opcode, append_frame, target, handle_ping, handle_pong,
  handle_close,
}

target_first : (opcode : Opcode) (a b : Bool) → target none opcode a ≡ target none opcode b
unfolding target
target_first opcode a b = ground arith

module _ (z : Inflater) (r : Role) (key : MaskKey) (now : ℕ) (use_context : Bool) where
  by_opcode-ignores :
      (opcode : Opcode) (frame : DecodedFrame) (compressed : Bool) (c : Conn z)
      → c.partial_msg ≡ none
      → by_opcode z r key now use_context opcode (record frame { compressed = compressed }) c
        ≡ by_opcode z r key now use_context opcode frame c
  unfolding by_opcode handle_data append_frame handle_ping handle_pong handle_close target
  by_opcode-ignores opcode frame compressed c e = ground arith

  -- Where no message is in progress, the handlers do the same with a frame whatever its extension
  -- bit is: a message that is marked as not compressed is inflated as a compressed one is.
  pub handle_frame-ignores_rsv1 :
      (frame : DecodedFrame) (compressed : Bool) (c : Conn z)
      → c.partial_msg ≡ none
      → handle_frame z r key now use_context (record frame { compressed = compressed }) c
        ≡ handle_frame z r key now use_context frame c
  unfolding handle_frame
  handle_frame-ignores_rsv1 frame compressed c e =
      by_opcode-ignores frame.opcode frame compressed c e
