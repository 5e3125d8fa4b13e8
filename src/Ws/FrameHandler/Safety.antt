-- ===== src/Ws/FrameHandler/Safety.antt =====
-- No decoded frame makes a handler panic, and the answers to close frames.
use wust_socket.Prelude.{
  ℕ, ◌≤◌, ◌≡◌, ◌≢◌, refl, ap, arith, List, [], ◌∷◌, Bool, true, length, codes, ◌==◌, ◌||◌,
  if◌then◌else◌, from_be_bytes,
}
use wust_socket.Prelude.Utf8.{is_utf8}
use wust_socket.Channel.{Inflater}
use wust_socket.Role.{Role}
use wust_socket.Error.{CloseReason, from_bytes, from_u16}
use wust_socket.Protocol.Mask.{MaskKey}
use wust_socket.Frames.Opcode.{Opcode, is_control}
use wust_socket.Frames.Control
use wust_socket.Frames.Control.Layout.{encode-wire, control_header}
use wust_socket.Frames.Control.Close.{close-wire, close_payload}
use wust_socket.Frames.Wire.{wire}
use wust_socket.Frames.Decode.Parse.{DecodedFrame, is_valid_close_payload}
use wust_socket.Frames.Decode.Frames.{IsWellFormed}
use wust_socket.Ws.FrameHandler.{
  Action, Flow, Conn, send_frame, handle_ping, handle_pong, handle_close, handle_close_payload,
  answer_close, reply_reason, handle_data, handle_frame, by_opcode,
}

-- The close frame that `r` sends for a reason and a text.
abbrev pub close_bytes : Role → CloseReason → List ℕ → MaskKey → List ℕ
close_bytes r reason text key = wire r (control_header Opcode.close) key (close_payload reason text)

-- The codes that are valid on the wire for the decoder and yet are answered as an error.
abbrev pub is_reserved : ℕ → Bool
is_reserved code = code == 1004 || (code == 1005 || code == 1006)

reply_reason-from_u16 :
    (code : ℕ)
    → code ≢ 1015
    → reply_reason (from_u16 code)
      ≡ (if is_reserved code then CloseReason.proto_error else CloseReason.normal)
unfolding reply_reason from_u16
reply_reason-from_u16 code h = ground arith

-- The reason of the answer, by the payload of the close frame.
abbrev pub expected_reason : List ℕ → CloseReason
expected_reason [] = CloseReason.normal
expected_reason (b ∷ []) = CloseReason.normal
expected_reason (b0 ∷ b1 ∷ text) =
    if is_reserved (from_be_bytes 0 (b0 ∷ b1 ∷ []))
    then CloseReason.proto_error
    else CloseReason.normal

module _ (z : Inflater) (r : Role) (key : MaskKey) where
  handle_ping-lem :
      (frame : DecodedFrame) (c : Conn z)
      → length frame.payload ≤ 125
      → handle_ping z r key frame c ≡ record {
        flow = Flow.goes_on;
        conn = c;
        actions = Action.ctrl (wire r (control_header Opcode.pong) key frame.payload) ∷ [];
      }
  unfolding handle_ping Control.pong
  handle_ping-lem frame c h = rw (encode-wire r Opcode.pong frame.payload key h)

  close-never_panics :
      (reason : CloseReason) (text : List ℕ) (flow : Flow) (c : Conn z)
      → flow ≢ Flow.panics
      → (send_frame z (Control.close r reason text key) Action.close flow c).flow ≢ Flow.panics
  close-never_panics reason text flow c h = rw (close-wire r reason text key) h

  handle_pong-never_panics :
      (now : ℕ) (frame : DecodedFrame) (c : Conn z)
      → (handle_pong z r key now frame c).flow ≢ Flow.panics
  unfolding handle_pong
  handle_pong-never_panics now frame c =
      ground (arith, close-wire r CloseReason.policy (codes "ping timeout") key)

  handle_data-never_panics :
      (ctx : Bool) (frame : DecodedFrame) (c : Conn z)
      → (handle_data z r key ctx frame c).flow ≢ Flow.panics
  unfolding handle_data
  handle_data-never_panics ctx frame c = ground (
    arith,
    close-wire r CloseReason.proto_error (codes "Unexpected frame") key,
    close-wire r CloseReason.too_big (codes "Message exceeded maximum size") key,
    close-wire r CloseReason.data_error (codes "Invalid UTF-8") key,
    close-wire r CloseReason.proto_error (codes "bad deflate stream") key,
  )

  answer_close-never_panics :
      (code : CloseReason) (c : Conn z) → (answer_close z r key code c).flow ≢ Flow.panics
  unfolding answer_close
  answer_close-never_panics code c =
      ground (arith, close-wire r (reply_reason code) (codes "peer closed") key)

  handle_close-never_panics :
      (payload : List ℕ) (c : Conn z)
      → is_valid_close_payload payload ≡ true
      → (handle_close_payload z r key payload c).flow ≢ Flow.panics
  unfolding handle_close_payload is_valid_close_payload
  handle_close-never_panics [] c h = answer_close-never_panics CloseReason.normal c
  handle_close-never_panics (b ∷ []) c h = cc
  handle_close-never_panics (b0 ∷ b1 ∷ text) c h =
      let utf8 : is_utf8 text ≡ true = ground arith in
      rw (utf8, handle_close_payload) (answer_close-never_panics (from_bytes b0 b1) c)

  by_opcode-never_panics :
      (op : Opcode) (now : ℕ) (ctx : Bool) (frame : DecodedFrame) (c : Conn z)
      → frame.opcode ≡ op
      → IsWellFormed frame
      → (by_opcode z r key now ctx op frame c).flow ≢ Flow.panics
  unfolding by_opcode handle_close
  by_opcode-never_panics Opcode.text now ctx frame c e v = handle_data-never_panics ctx frame c
  by_opcode-never_panics Opcode.bin now ctx frame c e v = handle_data-never_panics ctx frame c
  by_opcode-never_panics Opcode.cont now ctx frame c e v = handle_data-never_panics ctx frame c
  by_opcode-never_panics Opcode.pong now ctx frame c e v = handle_pong-never_panics now frame c
  by_opcode-never_panics Opcode.ping now ctx frame c e v =
      λ p. cc (ap (λ t. t.flow) (handle_ping-lem frame c (v.short (ap is_control e))), p)
  by_opcode-never_panics Opcode.close now ctx frame c e v =
      handle_close-never_panics frame.payload c (v.valid_close e)

  -- No frame that the decoder hands out makes a handler panic: every slice and every copy into an
  -- array is in range, in every state of the connection.
  pub handle_frame-never_panics :
      (now : ℕ) (ctx : Bool) (frame : DecodedFrame) (c : Conn z)
      → IsWellFormed frame
      → (handle_frame z r key now ctx frame c).flow ≢ Flow.panics
  unfolding handle_frame
  handle_frame-never_panics now ctx frame c v =
      by_opcode-never_panics frame.opcode now ctx frame c refl v

  answer_close-lem :
      (code : CloseReason) (c : Conn z)
      → let out = answer_close z r key code c in
        (out.flow ≡ Flow.stops)
        × (out.conn ≡ record c { closing = true })
        × (out.actions ≡ (
            if c.closing
            then []
            else Action.close (close_bytes r (reply_reason code) (codes "peer closed") key) ∷ []))
  unfolding answer_close
  answer_close-lem code c =
      ground (arith, close-wire r (reply_reason code) (codes "peer closed") key)

  handle_close_payload-answers :
      (payload : List ℕ) (c : Conn z)
      → is_valid_close_payload payload ≡ true
      → let out = handle_close_payload z r key payload c in
        (out.flow ≡ Flow.stops)
        × (out.conn ≡ record c { closing = true })
        × (out.actions ≡ (
            if c.closing
            then []
            else Action.close (close_bytes r (expected_reason payload) (codes "peer closed") key)
              ∷ []))
  unfolding handle_close_payload is_valid_close_payload
  handle_close_payload-answers [] c h = answer_close-lem CloseReason.normal c
  handle_close_payload-answers (b ∷ []) c h = cc
  handle_close_payload-answers (b0 ∷ b1 ∷ text) c h =
      let code = from_be_bytes 0 (b0 ∷ b1 ∷ []) in
      let utf8 : is_utf8 text ≡ true = ground arith in
      let other : code ≢ 1015 = ground arith in
      rw (utf8, handle_close_payload, ← reply_reason-from_u16 code other)
        (unfold from_bytes in answer_close-lem (from_bytes b0 b1) c)

  -- The answer to a close frame that the decoder hands out: `closing` is set and the reader's loop
  -- stops; if `closing` was set before, nothing is sent; else one close frame is, with the code of
  -- a protocol error for 1004, 1005 and 1006, and of a normal close for every other code and for
  -- an empty payload.
  pub handle_close-answers :
      (frame : DecodedFrame) (c : Conn z)
      → is_valid_close_payload frame.payload ≡ true
      → let out = handle_close z r key frame c in
        (out.flow ≡ Flow.stops)
        × (out.conn ≡ record c { closing = true })
        × (out.actions ≡ (
            if c.closing
            then []
            else Action.close
                (close_bytes r (expected_reason frame.payload) (codes "peer closed") key)
              ∷ []))
  unfolding handle_close
  handle_close-answers frame c h = handle_close_payload-answers frame.payload c h
