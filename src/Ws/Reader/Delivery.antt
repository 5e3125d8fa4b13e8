-- ===== src/Ws/Reader/Delivery.antt =====
-- A message on its way through the whole program: from `all_frames` at one end to the event of the
-- reader task at the other.
use wust_socket.Prelude.{
  ℕ, ◌+◌, ◌≡◌, refl, sym, ap, ◌∙◌, arith, List, [], ◌∷◌, ◌++◌, Option, none, some, Bool, true,
  false, length, ok, append-nil, concat, ◌≤◌, All,
}
use mathlib.Core.Path.{subst}
use wust_socket.Channel.{Inflater, Sender}
use wust_socket.Role.{Role, peer}
use wust_socket.Frames.Limits.{max_message_size}
use wust_socket.Frames.Opcode.{Opcode, is_control}
use wust_socket.Frames.Data.{all_frames}
use wust_socket.Frames.RoundTrip.{IsReady}
use wust_socket.Frames.Delivery.{Gives, all_frames-Gives, idle, message_frames}
use wust_socket.Protocol.Mask.{MaskKey}
use wust_socket.Frames.Decode.Parse.{FrameDecoder, DecodedFrame}
use wust_socket.Frames.Decode.{push_bytes}
use wust_socket.Frames.Decode.Resume.{is_wait}
use wust_socket.Frames.Decode.Stream.{drain, drain-last}
use wust_socket.Ws.Event.{Event, PartialMessage, into_message}
use wust_socket.Ws.Event.{push_bytes as extend}
use wust_socket.Ws.FrameHandler.{Action, Flow, Handled}
use wust_socket.Ws.FrameHandler.Assembly.{starts, handle_frames, handle_frames-message}
use wust_socket.Ws.Reader.{Reader, Ended, on_bytes, reader_loop}
use wust_socket.Ws.FrameHandler.Runs.{IsTimeless, data-IsTimeless}
use wust_socket.Ws.Reader.Pieces.{
  Handles, on_bytes-Handles, reader_loop-Handles, as_reads, bytes_of, same_reader,
}
use wust_socket.Ws.Reader.Outcome.{some_inj}

starts-data :
    (opcode : Opcode) (p : PartialMessage) → starts opcode ≡ some p → is_control opcode ≡ false
starts-data opcode p e = ground arith

message_frames-IsTimeless :
    (opcode : Opcode) (compressed first : Bool) (parts : List (List ℕ))
    → is_control opcode ≡ false
    → All IsTimeless (message_frames opcode compressed first parts)
unfolding message_frames
message_frames-IsTimeless opcode compressed first [] h = tt
message_frames-IsTimeless opcode compressed true (x ∷ parts) h =
    (data-IsTimeless opcode h, message_frames-IsTimeless opcode compressed false parts h)
message_frames-IsTimeless opcode compressed false (x ∷ parts) h =
    (data-IsTimeless Opcode.cont refl, message_frames-IsTimeless opcode compressed false parts h)

drain-nothing :
    (r : Role) (d : FrameDecoder) (deflate : Bool)
    → IsReady d deflate []
    → drain r (push_bytes d []) ≡ some (record { frames = []; last = ok none; decoder = d })
drain-nothing r d deflate ready =
    let same : push_bytes d [] ≡ d =
      unfold push_bytes in ap (λ b. record d { buf = b }) (append-nil d.buf) in
    ap (drain r) same ∙ drain-last r d d (ok none) (idle r d deflate ready) refl

module _ (z : Inflater) (r : Role) (use_context : Bool) (keys : ℕ → MaskKey) where
  -- Bytes of which the decoder makes these frames are handled as the handlers do.
  pub Gives-Handles :
      (deflate : Bool) (bytes : List ℕ) (frames : List DecodedFrame)
      (s : Reader z r use_context keys) (h : Handled z)
      (gives : Gives r (push_bytes s.decoder bytes) deflate frames)
      → All IsTimeless frames
      → handle_frames z r keys 0 use_context s.draws frames s.conn ≡ h
      → h.flow ≡ Flow.goes_on
      → Handles z r use_context keys s bytes (record s {
        decoder = gives.result.decoder;
        conn = h.conn;
        draws = s.draws + length gives.result.frames;
        actions = s.actions ++ h.actions;
      })
  Gives-Handles deflate bytes frames s h gives timeless e goes_on =
      let all =
        ap (λ fs. handle_frames z r keys 0 use_context s.draws fs s.conn) gives.same_frames ∙ e in
      record {
        drained = gives.result;
        drains = gives.drains;
        waits = ap is_wait gives.waits;
        timeless = subst (All IsTimeless) (sym gives.same_frames) timeless;
        goes_on = ap (λ x. x.flow) all ∙ goes_on;
        decoder = refl;
        draws = refl;
        conn = ap (λ x. x.conn) (sym all);
        actions = ap (λ x. s.actions ++ x.actions) (sym all);
      }

  -- The bytes that all sends of `all_frames` together have sent are handled as one message.
  pub all_frames-Handles :
      (tx : Sender (List ℕ)) (deflate : Bool) (opcode : Opcode) (compressed : Bool)
      (sender_keys : ℕ → MaskKey) (payload : List ℕ) (st : tx.State)
      (s : Reader z r use_context keys) (p : PartialMessage) (msg : Event) (j : Option z.Decoder)
      → IsReady s.decoder deflate []
      → starts opcode ≡ some p
      → (compressed ≡ true → deflate ≡ true)
      → s.conn.partial_msg ≡ none
      → length payload ≤ max_message_size
      → into_message z (extend p payload) s.conn.inflater use_context ≡ (ok msg, j)
      → (u : Unit {0}) → (all_frames tx (peer r) opcode payload compressed sender_keys st).0 ≡ ok u
      → (bytes : List (List ℕ)) × (s' : Reader z r use_context keys) × (tx.sent
            (all_frames tx (peer r) opcode payload compressed sender_keys st).1
          ≡ tx.sent st ++ bytes)
        × Handles z r use_context keys s (concat bytes) s'
        × (s'.conn ≡ record (s.conn) { partial_msg = none; inflater = j })
        × (s'.actions ≡ s.actions ++ Action.event msg ∷ [])
        × IsReady s'.decoder deflate []
  all_frames-Handles tx deflate opcode compressed sender_keys payload st s p msg j ready begins
        agreed idle fits e u sent =
      let (bytes, parts, in_order, whole, sizes, some_part, gives) =
        all_frames-Gives tx r deflate opcode compressed sender_keys payload st s.decoder ready
          (starts-data opcode p begins) agreed u sent in
      let m =
        handle_frames-message z r keys 0 use_context opcode compressed s.draws parts p s.conn msg j
          begins some_part idle (subst (λ x. length x ≤ max_message_size) (sym whole) fits)
          (ap (λ x. into_message z (extend p x) s.conn.inflater use_context) whole ∙ e) in
      let y = gives.result in
      (
        bytes,
        record s {
          decoder = y.decoder;
          conn = record (s.conn) { partial_msg = none; inflater = j };
          draws = s.draws + length y.frames;
          actions = s.actions ++ Action.event msg ∷ [];
        },
        in_order,
        Gives-Handles deflate (concat bytes) (message_frames opcode compressed true parts) s _ gives
            (message_frames-IsTimeless opcode compressed true parts (starts-data opcode p begins)) m
            refl,
        refl,
        refl,
        gives.ready,
      )

  -- A message of the other end arrives as one event. If all sends of `all_frames` there succeed,
  -- and the bytes that it sent are read here, by a reader whose decoder has nothing buffered and
  -- that has no message in progress, then the reader does one thing: it hands out the event that
  -- `into_message` makes of the payload. It is then ready for the next message. The conditions are
  -- that the message is text or binary, is compressed only if that was agreed on, is at most
  -- `MAX_MESSAGE_SIZE` long as it is sent, and that `into_message` makes an event of it.
  pub all_frames-delivered :
      (tx : Sender (List ℕ)) (deflate : Bool) (opcode : Opcode) (compressed : Bool)
      (sender_keys : ℕ → MaskKey) (payload : List ℕ) (st : tx.State) (now : ℕ)
      (s : Reader z r use_context keys) (p : PartialMessage) (msg : Event) (j : Option z.Decoder)
      → IsReady s.decoder deflate []
      → starts opcode ≡ some p
      → (compressed ≡ true → deflate ≡ true)
      → s.conn.partial_msg ≡ none
      → length payload ≤ max_message_size
      → into_message z (extend p payload) s.conn.inflater use_context ≡ (ok msg, j)
      → (u : Unit {0}) → (all_frames tx (peer r) opcode payload compressed sender_keys st).0 ≡ ok u
      → (bytes : List (List ℕ)) × (s' : Reader z r use_context keys) × (tx.sent
            (all_frames tx (peer r) opcode payload compressed sender_keys st).1
          ≡ tx.sent st ++ bytes)
        × (on_bytes z r use_context keys now (concat bytes) s ≡ some (Ended.breaks s'))
        × (s'.conn ≡ record (s.conn) { partial_msg = none; inflater = j })
        × (s'.actions ≡ s.actions ++ Action.event msg ∷ [])
        × IsReady s'.decoder deflate []
  all_frames-delivered tx deflate opcode compressed sender_keys payload st now s p msg j ready
        begins agreed idle fits e u sent =
      let (bytes, s', in_order, handles, conn, actions, next) =
        all_frames-Handles tx deflate opcode compressed sender_keys payload st s p msg j ready
          begins agreed idle fits e u sent in
      (
        bytes,
        record s' { last_seen = now },
        in_order,
        on_bytes-Handles z r use_context keys now s s' (concat bytes) handles,
        conn,
        actions,
        next,
      )

  Handles-end :
      (deflate : Bool) (s s' : Reader z r use_context keys)
      → IsReady s.decoder deflate []
      → Handles z r use_context keys s [] s'
      → s ≡ record s' { last_seen = s.last_seen }
  Handles-end deflate s s' ready h =
      let e = drain-nothing r s.decoder deflate ready in
      let same : h.drained ≡ record { frames = []; last = ok none; decoder = s.decoder } =
        some_inj z r use_context keys (sym h.drains ∙ e) in
      let none_run = ap (λ d. handle_frames z r keys 0 use_context s.draws d.frames s.conn) same in
      same_reader z r use_context keys s (record s' { last_seen = s.last_seen })
        (sym (h.decoder ∙ ap (λ d. d.decoder) same))
        (sym (h.conn ∙ ap (λ x. x.conn) none_run ∙ unfold handle_frames in refl)) refl
        (omega (arith, h.draws, ap (λ d. length d.frames) same))
        (sym (
          h.actions
          ∙ ap (λ x. s.actions ++ x.actions) none_run
          ∙ unfold handle_frames in append-nil s.actions))

  -- Bytes that are handled as one piece end in the same state, whatever the reads that bring them.
  pub reader_loop-pieces :
      (deflate : Bool) (reads : List (ℕ × List ℕ)) (s s' : Reader z r use_context keys)
      → IsReady s.decoder deflate []
      → Handles z r use_context keys s (bytes_of reads) s'
      → (last : ℕ) × (reader_loop z r use_context keys (as_reads reads) s
          ≡ some (Ended.breaks (record s' { last_seen = last })))
  unfolding reader_loop
  reader_loop-pieces deflate [] s s' ready h =
      (s.last_seen, ap (λ x. some (Ended.breaks x)) (Handles-end deflate s s' ready h))
  reader_loop-pieces deflate ((now, bytes) ∷ reads) s s' ready h =
      reader_loop-Handles z r use_context keys now bytes reads s s' h

  -- Nothing is handled where no bytes are read.
  pub Handles-nothing :
      (deflate : Bool) (s : Reader z r use_context keys)
      → IsReady s.decoder deflate []
      → Handles z r use_context keys s [] s
  unfolding handle_frames
  Handles-nothing deflate s ready = record {
    drained = record { frames = []; last = ok none; decoder = s.decoder };
    drains = drain-nothing r s.decoder deflate ready;
    waits = refl;
    timeless = tt;
    goes_on = refl;
    decoder = refl;
    draws = omega arith;
    conn = refl;
    actions = sym (append-nil s.actions);
  }
