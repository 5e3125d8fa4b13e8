-- ===== src/Ws/Reader/Errors.antt =====
-- What the reader task does at an error of the decoder.
use wust_socket.Prelude.{
  ℕ, ◌+◌, ◌≡◌, ap, ◌∙◌, arith, List, [], ◌∷◌, ◌++◌, some, Bool, true, length, err, codes,
}
use wust_socket.Channel.{Inflater}
use wust_socket.Role.{Role}
use wust_socket.Error.{CloseReason}
use wust_socket.Protocol.Mask.{MaskKey}
use wust_socket.Frames.Control.Close.{close-wire}
use wust_socket.Frames.Decode.Parse.{FrameParseError}
use wust_socket.Frames.Decode.{push_bytes}
use wust_socket.Frames.Decode.Stream.{Drained, drain, weight-lt}
use wust_socket.Ws.FrameHandler.{Action, Flow, Conn}
use wust_socket.Ws.FrameHandler.Assembly.{handle_frames}
use wust_socket.Ws.FrameHandler.Safety.{close_bytes}
use wust_socket.Ws.Reader.{Reader, Ended, on_bytes, on_error, fuel_for}
use wust_socket.Ws.Reader.Outcome.{conclude, frame_loop-Outcome}

-- The code and the text of the close frame.
abbrev pub reason_of : FrameParseError → CloseReason
reason_of FrameParseError.proto_error = CloseReason.proto_error
reason_of FrameParseError.size_err = CloseReason.too_big

abbrev pub text_of : FrameParseError → List ℕ
text_of FrameParseError.proto_error = codes "There was a ws protocol violation."
text_of FrameParseError.size_err = codes "Frame exceeded maximum size"

module _ (z : Inflater) (r : Role) (use_context : Bool) (keys : ℕ → MaskKey) where
  on_error-lem :
      (e : FrameParseError) (s : Reader z r use_context keys)
      → on_error z r use_context keys e s
        ≡ Ended.breaks (record s {
          conn = record (s.conn) { closing = true };
          draws = s.draws + 1;
          actions =
              s.actions
              ++ Action.close (close_bytes r (reason_of e) (text_of e) (keys s.draws)) ∷ [];
        })
  on_error-lem FrameParseError.proto_error s = ground (
    arith,
    close-wire r CloseReason.proto_error (codes "There was a ws protocol violation.")
        (keys s.draws),
  )
  on_error-lem FrameParseError.size_err s =
      ground (
        arith,
        close-wire r CloseReason.too_big (codes "Frame exceeded maximum size") (keys s.draws),
      )

  -- A read in which the decoder finds an error, behind frames with which the handlers go on: the
  -- task handles those frames, then sends one close frame, with the code of a protocol error or of a
  -- frame that is too big, and sets `closing`; it does not panic, and breaks the loop.
  pub on_bytes-error :
      (now : ℕ) (bytes : List ℕ) (s : Reader z r use_context keys) (y : Drained)
      (e : FrameParseError)
      → drain r (push_bytes s.decoder bytes) ≡ some y
      → y.last ≡ err e
      → (handle_frames z r keys now use_context s.draws y.frames s.conn).flow ≡ Flow.goes_on
      → let before = handle_frames z r keys now use_context s.draws y.frames s.conn in
        let close = close_bytes r (reason_of e) (text_of e) (keys (s.draws + length y.frames)) in
        (s' : Reader z r use_context keys) × (on_bytes z r use_context keys now bytes s
          ≡ some (Ended.breaks s'))
        × (s'.conn ≡ record (before.conn) { closing = true })
        × (s'.actions ≡ s.actions ++ before.actions ++ Action.close close ∷ [])
        × (s'.decoder ≡ y.decoder)
  unfolding on_bytes
  on_bytes-error now bytes s y e drains last goes_on =
      let d = push_bytes s.decoder bytes in
      let s1 : Reader z r use_context keys = record s { last_seen = now; decoder = d } in
      let o =
        frame_loop-Outcome z r use_context keys (fuel_for z r use_context keys d) now s1 y
          (weight-lt d) drains goes_on in
      let closed : Conn z → Conn z = λ c. record c { closing = true } in
      (
        record (o.reader) {
          conn = record (o.reader.conn) { closing = true };
          draws = o.reader.draws + 1;
          actions =
              o.reader.actions
              ++ Action.close (close_bytes r (reason_of e) (text_of e) (keys o.reader.draws)) ∷ [];
        },
        o.result
            ∙ ap (λ x. some (conclude z r use_context keys x o.reader)) last
            ∙ ap some (on_error-lem e o.reader),
        ap closed o.conn,
        ap
              (λ n.
                o.reader.actions
                ++ Action.close (close_bytes r (reason_of e) (text_of e) (keys n)) ∷ [])
              o.draws
            ∙ ap
                (λ x.
                  x
                  ++ Action.close
                      (close_bytes r (reason_of e) (text_of e) (keys (s.draws + length y.frames)))
                    ∷ [])
                o.actions,
        o.decoder,
      )
