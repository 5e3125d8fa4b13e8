-- ===== src/Ws/FrameHandler/Kept.antt =====
-- What the handlers keep: the bound on a message that is being put together, and the encoding of the
-- text that is handed out.
use wust_socket.Prelude.{
  ℕ, ◌+◌, ◌≤◌, ◌≡◌, arith, List, Option, none, some, Bool, true, length, length-append, Result, ok,
  err, All, Option-cases, inl, inr,
}
use mathlib.Core.Path.{subst}
use wust_socket.Prelude.Utf8.{is_utf8}
use wust_socket.Channel.{Inflater}
use wust_socket.Role.{Role}
use wust_socket.Protocol.Mask.{MaskKey}
use wust_socket.Frames.Limits.{max_message_size}
use wust_socket.Frames.Opcode.{Opcode}
use wust_socket.Frames.Decode.Parse.{DecodedFrame}
use wust_socket.Ws.Event.{
  Event, PartialMessage, MessageError, push_bytes, partial_len, into_message, contents, to_event,
  is_text, inflate_message, after_inflate,
}
use wust_socket.Ws.FrameHandler.{
  Action, Conn, Handled, handle_ping, handle_pong, handle_close, handle_data, append_frame,
  handle_frame, by_opcode, target,
}

-- A message in progress is within the limit.
abbrev pub Fits : Option PartialMessage → Type 0
Fits none = Unit {0}
Fits (some p) = partial_len p ≤ max_message_size

-- Text is handed out in valid UTF-8 only.
abbrev pub IsProper : Action → Type 0
IsProper (Action.event (Event.text t)) = is_utf8 t.inner ≡ true
IsProper _ = Unit {0}

abbrev IsProperEvent : Event → Type 0
IsProperEvent e = IsProper (Action.event e)

target-Fits : (o : Option PartialMessage) (op : Opcode) (b : Bool) → Fits o → Fits (target o op b)
unfolding target
target-Fits o op b h = ground arith

length-push :
    (p : PartialMessage) (xs : List ℕ) → partial_len (push_bytes p xs) ≡ partial_len p + length xs
length-push (PartialMessage.text v) xs = length-append v xs
length-push (PartialMessage.binary v) xs = length-append v xs

abbrev IsProperResult : Result MessageError Event → Type 0
IsProperResult (ok e) = IsProperEvent e
IsProperResult (err e) = Unit {0}

to_event-IsProper : (b : Bool) (bytes : List ℕ) → IsProperResult (to_event b bytes)
unfolding to_event
to_event-IsProper b bytes = ground arith

module _ (z : Inflater) (r : Role) (key : MaskKey) where
  after_inflate-IsProper :
      (b : Bool) (x : Option (List ℕ) × z.Decoder) → IsProperResult (after_inflate z b x).0
  unfolding after_inflate
  after_inflate-IsProper b (none, d) = tt
  after_inflate-IsProper b (some bytes, d) = to_event-IsProper b bytes

  into_message-IsProper :
      (p : PartialMessage) (i : Option z.Decoder) (ctx : Bool)
      → IsProperResult (into_message z p i ctx).0
  unfolding into_message
  into_message-IsProper p none ctx = to_event-IsProper (is_text p) (contents p)
  into_message-IsProper p (some d) ctx =
      after_inflate-IsProper (is_text p) (inflate_message z ctx (contents p) d)

  -- A state whose message in progress is within the limit, and actions that hand out proper text.
  pub record IsKept (h : Handled z) : Type 0 where
    pub fits : Fits h.conn.partial_msg
    pub proper : All IsProper h.actions

  handle_ping-IsKept :
      (frame : DecodedFrame) (c : Conn z)
      → Fits c.partial_msg
      → IsKept (handle_ping z r key frame c)
  unfolding handle_ping
  handle_ping-IsKept frame c v = ground arith

  handle_pong-IsKept :
      (now : ℕ) (frame : DecodedFrame) (c : Conn z)
      → Fits c.partial_msg
      → IsKept (handle_pong z r key now frame c)
  unfolding handle_pong
  handle_pong-IsKept now frame c v = ground arith

  handle_close-IsKept :
      (frame : DecodedFrame) (c : Conn z)
      → Fits c.partial_msg
      → IsKept (handle_close z r key frame c)
  unfolding handle_close
  handle_close-IsKept frame c v = ground arith

  append_frame-IsKept :
      (ctx : Bool) (frame : DecodedFrame) (p : PartialMessage) (c : Conn z)
      → Fits (some p)
      → IsKept (append_frame z r key ctx frame p c)
  unfolding append_frame
  append_frame-IsKept ctx frame p c v = ground (
    arith,
    length-push p frame.payload,
    into_message-IsProper (push_bytes p frame.payload) c.inflater ctx,
  )

  handle_data-IsKept :
      (ctx : Bool) (frame : DecodedFrame) (c : Conn z)
      → Fits c.partial_msg
      → IsKept (handle_data z r key ctx frame c)
  unfolding handle_data
  handle_data-IsKept ctx frame c v =
      elim (Option-cases (target c.partial_msg frame.opcode frame.compressed)) [
        | inl e ↦ rw (e, handle_data) (ground arith)
        | inr (p, e) ↦
            rw (e, handle_data)
              (append_frame-IsKept ctx frame p c
                (subst Fits e (target-Fits c.partial_msg frame.opcode frame.compressed v)))
      ]

  by_opcode-IsKept :
      (op : Opcode) (now : ℕ) (ctx : Bool) (frame : DecodedFrame) (c : Conn z)
      → Fits c.partial_msg
      → IsKept (by_opcode z r key now ctx op frame c)
  unfolding by_opcode
  by_opcode-IsKept Opcode.text now ctx frame c v = handle_data-IsKept ctx frame c v
  by_opcode-IsKept Opcode.bin now ctx frame c v = handle_data-IsKept ctx frame c v
  by_opcode-IsKept Opcode.cont now ctx frame c v = handle_data-IsKept ctx frame c v
  by_opcode-IsKept Opcode.pong now ctx frame c v = handle_pong-IsKept now frame c v
  by_opcode-IsKept Opcode.ping now ctx frame c v = handle_ping-IsKept frame c v
  by_opcode-IsKept Opcode.close now ctx frame c v = handle_close-IsKept frame c v

  -- No frame makes the message in progress longer than `MAX_MESSAGE_SIZE`, and text is handed out
  -- only if it is valid UTF-8.
  pub handle_frame-IsKept :
      (now : ℕ) (ctx : Bool) (frame : DecodedFrame) (c : Conn z)
      → Fits c.partial_msg
      → IsKept (handle_frame z r key now ctx frame c)
  unfolding handle_frame
  handle_frame-IsKept now ctx frame c v = by_opcode-IsKept frame.opcode now ctx frame c v
