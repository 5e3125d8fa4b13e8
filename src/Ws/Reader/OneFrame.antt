-- ===== src/Ws/Reader/OneFrame.antt =====
-- One frame that comes in one read.
use wust_socket.Prelude.{ℕ, ◌≡◌, sym, ap, ◌∙◌, [], ◌∷◌, ◌++◌, some, Bool, append-nil}
use mathlib.Core.Path.{subst}
use wust_socket.Channel.{Inflater}
use wust_socket.Role.{Role, peer}
use wust_socket.Protocol.Mask.{MaskKey}
use wust_socket.Frames.Wire.{wire}
use wust_socket.Frames.Decode.{push_bytes}
use wust_socket.Frames.Decode.Resume.{is_wait}
use wust_socket.Frames.Decode.Stream.{weight-lt}
use wust_socket.Frames.RoundTrip.{IsReady}
use wust_socket.Frames.RoundTrip.Steps.{decoded}
use wust_socket.Frames.Delivery.{IsReady-push}
use wust_socket.Frames.Sequence.{Frame, IsTaken, wires, wires-Gives}
use wust_socket.Ws.FrameHandler.{Flow, Handled, handle_frame}
use wust_socket.Ws.FrameHandler.Assembly.{handle_frames, goes_on-and_then}
use wust_socket.Ws.Reader.{Reader, Ended, on_bytes, fuel_for}
use wust_socket.Ws.Reader.Outcome.{conclude-waits, frame_loop-Outcome}

module _ (z : Inflater) (r : Role) (use_context : Bool) (keys : ℕ → MaskKey) where
  -- A frame whose handler goes on is handled, and the task waits for more.
  pub on_bytes-frame :
      (deflate : Bool) (now : ℕ) (f : Frame) (s : Reader z r use_context keys) (out : Handled z)
      → IsReady s.decoder deflate []
      → IsTaken deflate f
      → handle_frame z r (keys s.draws) now use_context (decoded f.header f.payload) s.conn ≡ out
      → out.flow ≡ Flow.goes_on
      → (s' : Reader z r use_context keys) × (on_bytes z r use_context keys now
            (wire (peer r) f.header f.key f.payload)
            s
          ≡ some (Ended.breaks s'))
        × (s'.conn ≡ out.conn)
        × (s'.actions ≡ s.actions ++ out.actions)
        × IsReady s'.decoder deflate []
  unfolding on_bytes handle_frames
  on_bytes-frame deflate now f s out ready taken handled goes_on =
      let bytes = wire (peer r) f.header f.key f.payload in
      let d = push_bytes s.decoder bytes in
      let s1 : Reader z r use_context keys = record s { last_seen = now; decoder = d } in
      let pushed : IsReady d deflate (wires (peer r) (f ∷ [])) =
        subst (λ b. IsReady d deflate b) (sym (append-nil bytes)) (IsReady-push ready bytes) in
      let gives = wires-Gives r deflate (f ∷ []) d (taken, tt) pushed in
      let run =
        ap (λ fs. handle_frames z r keys now use_context s.draws fs s.conn) gives.same_frames
        ∙ goes_on-and_then z r keys now use_context
            (handle_frame z r (keys s.draws) now use_context (decoded f.header f.payload) s.conn)
            (λ c. record { flow = Flow.goes_on; conn = c; actions = [] })
            (ap (λ x. x.flow) handled ∙ goes_on) in
      let o =
        frame_loop-Outcome z r use_context keys (fuel_for z r use_context keys d) now s1
          gives.result (weight-lt d) gives.drains (ap (λ x. x.flow) run) in
      (
        o.reader,
        o.result
            ∙ ap some (
                conclude-waits z r use_context keys gives.result.last o.reader
                  (ap is_wait gives.waits)),
        o.conn ∙ ap (λ x. x.conn) run ∙ ap (λ x. x.conn) handled,
        o.actions
            ∙ ap (λ x. s.actions ++ x.actions) run
            ∙ ap (λ x. s.actions ++ x) (append-nil _)
            ∙ ap (λ x. s.actions ++ x.actions) handled,
        subst (λ x. IsReady x deflate []) (sym o.decoder) gives.ready,
      )
