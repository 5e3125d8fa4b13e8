-- ===== src/Ws/Reader/Closing.antt =====
-- A close frame of the other end, read by the reader task.
use wust_socket.Prelude.{
  ℕ, suc, ◌+◌, ◌≤◌, ◌≡◌, refl, sym, ap, ◌∙◌, arith, List, [], ◌∷◌, ◌++◌, some, Bool, true, length,
  ok, if◌then◌else◌, codes, append-nil,
}
use mathlib.Core.Path.{subst}
use wust_socket.Channel.{Inflater}
use wust_socket.Role.{Role, peer}
use wust_socket.Protocol.Mask.{MaskKey}
use wust_socket.Frames.Opcode.{Opcode}
use wust_socket.Frames.Control.Layout.{control_header}
use wust_socket.Frames.Wire.{wire}
use wust_socket.Frames.Decode.Parse.{FrameDecoder, DecodedFrame, FrameState, is_valid_close_payload}
use wust_socket.Frames.Decode.{next_frame, push_bytes}
use wust_socket.Frames.RoundTrip.{IsReady, next_frame-wire}
use wust_socket.Frames.RoundTrip.Steps.{decoded}
use wust_socket.Frames.Delivery.{IsReady-push}
use wust_socket.Ws.FrameHandler.{Action, Flow, handle_frame, by_opcode, handle_close}
use wust_socket.Ws.FrameHandler.Safety.{handle_close-answers, expected_reason, close_bytes}
use wust_socket.Ws.Reader.{Reader, Ended, frame_loop, handled, on_bytes, fuel_for}

module _ (z : Inflater) (r : Role) (use_context : Bool) (keys : ℕ → MaskKey) where
  frame_loop-stops :
      (fuel now : ℕ) (s : Reader z r use_context keys) (f : DecodedFrame) (d : FrameDecoder)
      → next_frame r s.decoder ≡ some (ok (some (FrameState.complete f)), d)
      → (handle_frame z r (keys s.draws) now use_context f s.conn).flow ≡ Flow.stops
      → frame_loop z r use_context keys (suc fuel) now s
        ≡ some (
            Ended.breaks (
              handled z r use_context keys
                (record s { decoder = d })
                (handle_frame z r (keys s.draws) now use_context f s.conn)))
  unfolding frame_loop
  frame_loop-stops fuel now s f d e stops = rw (e, frame_loop, stops) refl

  -- What the task sends for a close frame with this payload.
  abbrev pub answers : List ℕ → Reader z r use_context keys → List Action
  answers payload s =
      if s.conn.closing
      then []
      else Action.close
          (close_bytes r (expected_reason payload) (codes "peer closed") (keys s.draws))
        ∷ []

  -- The whole of a close frame in one read.
  pub on_bytes-close :
      (deflate : Bool) (now : ℕ) (key : MaskKey) (payload : List ℕ)
      (s : Reader z r use_context keys)
      → IsReady s.decoder deflate []
      → length payload ≤ 125
      → is_valid_close_payload payload ≡ true
      → (s' : Reader z r use_context keys) × (on_bytes z r use_context keys now
            (wire (peer r) (control_header Opcode.close) key payload)
            s
          ≡ some (Ended.breaks s'))
        × (s'.conn ≡ record (s.conn) { closing = true })
        × (s'.actions ≡ s.actions ++ answers payload s)
        × IsReady s'.decoder deflate []
  unfolding on_bytes handle_frame by_opcode
  on_bytes-close deflate now key payload s ready short valid =
      let h = control_header Opcode.close in
      let bytes = wire (peer r) h key payload in
      let d = push_bytes s.decoder bytes in
      let s1 : Reader z r use_context keys = record s { last_seen = now; decoder = d } in
      let pushed : IsReady d deflate (bytes ++ []) =
        subst (λ b. IsReady d deflate b) (sym (append-nil bytes)) (IsReady-push ready bytes) in
      let (d', complete, next) =
        next_frame-wire r deflate h key payload [] d pushed
          (record { agreed = λ k. cc; whole = λ k. refl; plain = λ k. refl; short = λ k. short })
          (omega arith) (λ k. valid) in
      let (stops, conn, actions) =
        handle_close-answers z r (keys s.draws) (decoded h payload) s.conn valid in
      let fuel : fuel_for z r use_context keys d ≡ suc (length d.buf + 1) = omega arith in
      (
        handled z r use_context keys (record s1 { decoder = d' })
            (handle_close z r (keys s.draws) (decoded h payload) s.conn),
        ap (λ n. frame_loop z r use_context keys n now s1) fuel
            ∙ frame_loop-stops (length d.buf + 1) now s1 (decoded h payload) d' complete stops,
        conn,
        ap (λ a. s.actions ++ a) actions,
        next,
      )
