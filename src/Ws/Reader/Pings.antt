-- ===== src/Ws/Reader/Pings.antt =====
-- The reader task on the frames of messages with pings between them, in whatever pieces they come.
use wust_socket.Prelude.{
  ℕ, ◌+◌, ◌≡◌, inl, inr, refl, sym, ap, ◌∙◌, List, [], ◌∷◌, ◌++◌, some, Bool, length, All,
}
use mathlib.Core.Path.{subst}
use wust_socket.Channel.{Inflater}
use wust_socket.Role.{Role, peer}
use wust_socket.Protocol.Mask.{MaskKey}
use wust_socket.Frames.Decode.Parse.{DecodedFrame}
use wust_socket.Frames.Decode.{push_bytes}
use wust_socket.Frames.RoundTrip.{IsReady}
use wust_socket.Frames.Delivery.{IsReady-push}
use wust_socket.Frames.Sequence.{Frame, IsTaken, wires, decoded_all, wires-Gives}
use wust_socket.Ws.FrameHandler.{Flow}
use wust_socket.Ws.FrameHandler.Assembly.{handle_frames}
use wust_socket.Ws.FrameHandler.Interleaved.{
  without_pings, events_of, ctrls_of, pongs, IsDataOrPing, handle_frames-pings, events_of-append,
  ctrls_of-append,
}
use wust_socket.Ws.FrameHandler.Runs.{IsTimeless, data-IsTimeless}
use wust_socket.Ws.Reader.{Reader, Ended, reader_loop}
use wust_socket.Ws.Reader.Pieces.{Handles, as_reads, bytes_of}
use wust_socket.Ws.Reader.Delivery.{Gives-Handles, reader_loop-pieces}

IsDataOrPing-IsTimeless : (f : DecodedFrame) → IsDataOrPing f → IsTimeless f
IsDataOrPing-IsTimeless f (inl d) = data-IsTimeless f.opcode d
IsDataOrPing-IsTimeless f (inr (p, l)) = λ e. cc (p, e)

All-IsTimeless : (fs : List DecodedFrame) → All IsDataOrPing fs → All IsTimeless fs
All-IsTimeless [] h = tt
All-IsTimeless (f ∷ fs) h = (IsDataOrPing-IsTimeless f h.0, All-IsTimeless fs h.1)

module _ (z : Inflater) (r : Role) (use_context : Bool) (keys : ℕ → MaskKey) where
  -- Frames of data and pings that the other end sends, in any order and read in whatever pieces: if
  -- the handlers go on with the frames of data alone, the reader task reads on to the end of the
  -- bytes, the connection is in the state in which those frames leave it, the events are theirs, in
  -- the same order, and each ping is answered by one pong with its payload, in the order of the
  -- pings. The decoder takes each of the frames, and nothing was buffered before.
  pub reader_loop-pings :
      (deflate : Bool) (fs : List Frame) (reads : List (ℕ × List ℕ))
      (s : Reader z r use_context keys)
      → IsReady s.decoder deflate []
      → All (IsTaken deflate) fs
      → All IsDataOrPing (decoded_all fs)
      → bytes_of reads ≡ wires (peer r) fs
      → (handle_frames z r keys 0 use_context s.draws (without_pings (decoded_all fs)) s.conn).flow
        ≡ Flow.goes_on
      → let plain =
          handle_frames z r keys 0 use_context s.draws (without_pings (decoded_all fs)) s.conn in
        (s' : Reader z r use_context keys) × (reader_loop z r use_context keys (as_reads reads) s
          ≡ some (Ended.breaks s'))
        × (s'.conn ≡ plain.conn)
        × (events_of s'.actions ≡ events_of s.actions ++ events_of plain.actions)
        × (ctrls_of s'.actions
            ≡ ctrls_of s.actions ++ pongs z r use_context 0 keys s.draws (decoded_all fs))
        × IsReady s'.decoder deflate []
  reader_loop-pings deflate fs reads s ready taken kinds whole goes_on =
      let frames = decoded_all fs in
      let out = handle_frames z r keys 0 use_context s.draws frames s.conn in
      let (flow, conn, events, answers) =
        handle_frames-pings z r use_context 0 keys s.draws s.draws frames s.conn kinds goes_on in
      let gives =
        wires-Gives r deflate fs (push_bytes s.decoder (wires (peer r) fs)) taken
          (IsReady-push ready (wires (peer r) fs)) in
      let s' : Reader z r use_context keys = record s {
        decoder = gives.result.decoder;
        conn = out.conn;
        draws = s.draws + length gives.result.frames;
        actions = s.actions ++ out.actions;
      } in
      let handles : Handles z r use_context keys s (wires (peer r) fs) s' =
        Gives-Handles z r use_context keys deflate (wires (peer r) fs) frames s out gives
          (All-IsTimeless frames kinds) refl flow in
      let (last, reading) =
        reader_loop-pieces z r use_context keys deflate reads s s' ready
          (subst (λ b. Handles z r use_context keys s b s') (sym whole) handles) in
      (
        record s' { last_seen = last },
        reading,
        conn,
        events_of-append s.actions out.actions ∙ ap (λ x. events_of s.actions ++ x) events,
        ctrls_of-append s.actions out.actions ∙ ap (λ x. ctrls_of s.actions ++ x) answers,
        gives.ready,
      )
