-- ===== src/Ws/WebSocket/Conversation.antt =====
-- A connection of two handles of this crate, from `from_stream` on: the messages that one end sends
-- and the events at the other end.
use wust_socket.Prelude.{
  append_cancel, ℕ, ◌≤◌, ◌≡◌, ◌⊎◌, inl, inr, refl, sym, ap, ◌∙◌, List, [], ◌∷◌, ◌++◌, Option, none,
  some, Bool, true, false, ok, length, concat, append-nil, append_assoc, Bool-cases, if◌then◌else◌,
}
use mathlib.Core.Path.{subst}
use wust_socket.Channel.{Sender, Deflater, Inflater}
use wust_socket.Role.{Role, peer}
use wust_socket.Protocol.Mask.{MaskKey}
use wust_socket.Frames.Limits.{max_message_size}
use wust_socket.Frames.Decode
use wust_socket.Frames.RoundTrip.{IsReady}
use wust_socket.Ws.FrameHandler.{Action}
use wust_socket.Ws.Reader.{Reader, Ended, reader_loop, new_reader}
use wust_socket.Ws.Reader.Pieces.{Handles, Handles-append, as_reads, bytes_of}
use wust_socket.Ws.Reader.Delivery.{Handles-nothing, reader_loop-pieces}
use wust_socket.Ws.WebSocket.{WebSocket, Message, from_stream, send_data, send_text, send_bytes}
use wust_socket.Ws.WebSocket.Plain.{opcode_of, content, event_of, IsProper, send_data-Handles}
use wust_socket.Ws.WebSocket.Messages.{Sends, as_events, sent_payload}
use wust_socket.Ws.WebSocket.Compressed.{Codec, InPhase, Linked-InPhase, send_data-inflated}

concat-append : (xs ys : List (List ℕ)) → concat (xs ++ ys) ≡ concat xs ++ concat ys
concat-append [] ys = refl
concat-append (x ∷ xs) ys =
    ap (λ t. x ++ t) (concat-append xs ys) ∙ sym (append_assoc x (concat xs) (concat ys))

module _ (tx : Sender (List ℕ)) (zd : Deflater) (zi : Inflater) (codec : Codec zd zi) (r : Role)
    (compressed use_context : Bool) (reader_keys : ℕ → MaskKey) (keys : ℕ → ℕ → MaskKey) where
  open codec use {Linked}

  -- The two streams of one direction, if compression is on.
  abbrev pub Streams : Option zd.Encoder → Option zi.Decoder → Type 0
  Streams x y =
      ((compressed ≡ false) × (x ≡ none) × (y ≡ none))
      ⊎ ((e : zd.Encoder) × (d : zi.Decoder) × (compressed ≡ true)
          × (x ≡ some e)
          × (y ≡ some d)
          × InPhase tx zd zi codec use_context e d)

  -- One end has sent nothing that the other has not read.
  pub record InStep (ws : WebSocket tx zd) (s : Reader zi r use_context reader_keys) : Type 0 where
    pub streams : Streams ws.deflater s.conn.inflater
    pub context : ws.use_context ≡ use_context
    pub ready : IsReady s.decoder compressed []
    pub whole : s.conn.partial_msg ≡ none

  abbrev new_inflater : zi.Decoder → Option zi.Decoder
  new_inflater d = if compressed then some d else none

  pub new-IsReady : (c : Bool) → IsReady (Decode.new c) c []
  unfolding Decode.new
  new-IsReady c = record { at_start = refl; buffered = refl; setting = refl }

  -- Two ends that have just been set up are in step.
  from_stream-InStep :
      (now : ℕ) (close_tx ctrl_tx data_tx : tx.State) (e : zd.Encoder) (d : zi.Decoder)
      → Linked e d
      → InStep
          (from_stream tx zd now close_tx ctrl_tx data_tx e compressed use_context)
          (new_reader zi r use_context reader_keys now (new_inflater d))
  unfolding from_stream new_reader
  from_stream-InStep now close_tx ctrl_tx data_tx e d l = elim (Bool-cases compressed) [
    | inl on ↦ record {
      streams =
          inr (e, d, on, rw on refl, rw on refl, Linked-InPhase tx zd zi codec use_context e d l);
      context = refl;
      ready = rw on (new-IsReady true);
      whole = refl;
    }
    | inr off ↦ record {
      streams = inl (off, rw off refl, rw off refl);
      context = refl;
      ready = rw off (new-IsReady false);
      whole = refl;
    }
  ]

  -- What is sent from `ws` on reaches the reader `s`, which hands out these messages.
  abbrev Delivered :
      List Message
      → WebSocket tx zd
      → WebSocket tx zd
      → Reader zi r use_context reader_keys
      → Type 0
  Delivered ms ws ws' s =
      (frames : List (List ℕ)) × (s' : Reader zi r use_context reader_keys) × (tx.sent ws'.data_tx
        ≡ tx.sent ws.data_tx ++ frames)
      × Handles zi r use_context reader_keys s (concat frames) s'
      × (s'.actions ≡ s.actions ++ as_events ms)
      × InStep ws' s'

  send_data-Delivered :
      (m : Message) (ws : WebSocket tx zd) (s : Reader zi r use_context reader_keys) (u : Unit {0})
      → (send_data tx zd (peer r) keys (content m) (opcode_of m) ws).0 ≡ ok u
      → IsProper m
      → length (sent_payload tx zd r use_context keys ws.deflater m) ≤ max_message_size
      → InStep ws s
      → Delivered (m ∷ []) ws (send_data tx zd (peer r) keys (content m) (opcode_of m) ws).1 s
  send_data-Delivered m ws s u sent proper fits v = elim v.streams [
    | inl (c, x, y) ↦
        let (frames, s', in_order, handles, actions, x', y', ready, whole) =
          send_data-Handles tx zd zi r use_context compressed reader_keys keys m ws s x v.ready y
            v.whole proper
            (subst (λ o. length (sent_payload tx zd r use_context keys o m) ≤ max_message_size) x
              fits)
            u sent in
        (
          frames,
          s',
          in_order,
          handles,
          actions,
          record {
            streams = inl (c, x', y');
            context = unfold send_data in v.context;
            ready = ready;
            whole = whole;
          },
        )
    | inr (e, d, c, x, y, linked) ↦
        let (frames, s', e', d', in_order, handles, actions, x', y', linked', ready, whole) =
          send_data-inflated tx zd zi codec r use_context reader_keys keys m ws s e d x v.context y
            linked (subst (λ b. IsReady s.decoder b []) c v.ready) v.whole proper
            (subst (λ o. length (sent_payload tx zd r use_context keys o m) ≤ max_message_size) x
              fits)
            u sent in
        (
          frames,
          s',
          in_order,
          handles,
          actions,
          record {
            streams = inr (e', d', c, x', y', linked');
            context = unfold send_data in v.context;
            ready = subst (λ b. IsReady s'.decoder b []) (sym c) ready;
            whole = whole;
          },
        )
  ]

  -- One message, and then the others.
  Delivered-next :
      (m : Message) (ms : List Message) (ws ws1 ws' : WebSocket tx zd)
      (s : Reader zi r use_context reader_keys)
      → Delivered (m ∷ []) ws ws1 s
      → ((s1 : Reader zi r use_context reader_keys) → InStep ws1 s1 → Delivered ms ws1 ws' s1)
      → Delivered (m ∷ ms) ws ws' s
  Delivered-next m ms ws ws1 ws' s (frames, s1, in_order, handles, actions, v1) rest =
      let (sent, s', in_order', handles', actions', v') = rest s1 v1 in
      (
        frames ++ sent,
        s',
        in_order' ∙ ap (λ x. x ++ sent) in_order ∙ append_assoc (tx.sent ws.data_tx) frames sent,
        subst (λ b. Handles zi r use_context reader_keys s b s') (sym (concat-append frames sent))
            (Handles-append zi r use_context reader_keys s s1 s' (concat frames) (concat sent)
              handles handles'),
        actions'
            ∙ ap (λ x. x ++ as_events ms) actions
            ∙ append_assoc s.actions (Action.event (event_of m) ∷ []) (as_events ms),
        v',
      )

  Sends-Delivered :
      {ms : List Message} {ws ws' : WebSocket tx zd} (s : Reader zi r use_context reader_keys)
      → Sends tx zd r use_context keys ms ws ws'
      → InStep ws s
      → Delivered ms ws ws' s
  unfolding send_text send_bytes
  Sends-Delivered {ws = ws} s Sends.done v = (
    [],
    s,
    sym (append-nil (tx.sent ws.data_tx)),
    Handles-nothing zi r use_context reader_keys compressed s v.ready,
    sym (append-nil s.actions),
    v,
  )
  Sends-Delivered {ws = ws} {ws' = ws'} s (Sends.text {ms = rest} t u sent utf8 fits later) v =
      let m = Message.text t.inner in
      Delivered-next m rest ws (send_text tx zd (peer r) keys t ws).1 ws' s
        (send_data-Delivered m ws s u sent utf8 fits v) (λ s1 v1. Sends-Delivered s1 later v1)
  Sends-Delivered {ws = ws} {ws' = ws'} s (Sends.binary {ms = rest} b u sent fits later) v =
      let m = Message.binary b in
      Delivered-next m rest ws (send_bytes tx zd (peer r) keys b ws).1 ws' s
        (send_data-Delivered m ws s u sent tt fits v) (λ s1 v1. Sends-Delivered s1 later v1)

  -- What is sent from `ws` on is read by an end that has handled some bytes before it.
  pub delivers_after :
      {ms : List Message} {ws ws' : WebSocket tx zd} (before : List ℕ)
      (s0 s : Reader zi r use_context reader_keys) (sent : List (List ℕ))
      (reads : List (ℕ × List ℕ))
      → IsReady s0.decoder compressed []
      → Handles zi r use_context reader_keys s0 before s
      → InStep ws s
      → Sends tx zd r use_context keys ms ws ws'
      → tx.sent ws'.data_tx ≡ tx.sent ws.data_tx ++ sent
      → bytes_of reads ≡ before ++ concat sent
      → (s' : Reader zi r use_context reader_keys) × (reader_loop zi r use_context reader_keys
            (as_reads reads)
            s0
          ≡ some (Ended.breaks s'))
        × (s'.actions ≡ s.actions ++ as_events ms)
  delivers_after {ws = ws} before s0 s sent reads ready handled v h all whole =
      let (frames, s', in_order, handles, actions, _) = Sends-Delivered s h v in
      let same : before ++ concat frames ≡ bytes_of reads =
        ap (λ x. before ++ concat x)
          (append_cancel (tx.sent ws.data_tx) frames sent (sym in_order ∙ all))
        ∙ sym whole in
      let (last, reading) =
        reader_loop-pieces zi r use_context reader_keys compressed reads s0 s' ready (
          subst (λ b. Handles zi r use_context reader_keys s0 b s') same
            (Handles-append zi r use_context reader_keys s0 s s' before (concat frames) handled
              handles)) in
      (record s' { last_seen = last }, reading, actions)

  -- Every message of a connection arrives, in order and as it was sent: after any number of calls of
  -- `send_text` and `send_bytes` without an error on a new handle, the reader task of the other end
  -- that was set up with the same settings, and that reads the bytes that were sent, in whatever
  -- pieces and at whatever times, has handed out the events of exactly these messages, and has done
  -- nothing else. Text is valid UTF-8, and what is sent for each message has at most
  -- `MAX_MESSAGE_SIZE` bytes; with compression the new encoder and the new decoder are in step.
  pub from_stream-delivers :
      {ms : List Message} {ws' : WebSocket tx zd} (now : ℕ) (close_tx ctrl_tx data_tx : tx.State)
      (e : zd.Encoder) (d : zi.Decoder) (sent : List (List ℕ)) (reads : List (ℕ × List ℕ))
      → Linked e d
      → Sends tx zd r use_context keys ms
          (from_stream tx zd now close_tx ctrl_tx data_tx e compressed use_context)
          ws'
      → tx.sent ws'.data_tx ≡ tx.sent data_tx ++ sent
      → bytes_of reads ≡ concat sent
      → (s' : Reader zi r use_context reader_keys) × (reader_loop zi r use_context reader_keys
            (as_reads reads)
            (new_reader zi r use_context reader_keys now (new_inflater d))
          ≡ some (Ended.breaks s'))
        × (s'.actions ≡ as_events ms)
  unfolding from_stream new_reader
  from_stream-delivers now close_tx ctrl_tx data_tx e d sent reads l h all whole =
      let s = new_reader zi r use_context reader_keys now (new_inflater d) in
      let v = from_stream-InStep now close_tx ctrl_tx data_tx e d l in
      delivers_after [] s s sent reads v.ready
        (Handles-nothing zi r use_context reader_keys compressed s v.ready) v h all whole
