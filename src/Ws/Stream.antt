-- ===== src/Ws/Stream.antt =====
-- From the handle at one end over its writer task to the reader task at the other: what is written
-- to the stream, and what is read from it.
use wust_socket.Prelude.{
  ℕ, ◌≡◌, inl, inr, refl, sym, ap, ◌∙◌, List, [], ◌∷◌, ◌++◌, Bool, true, some, none, concat,
  append-nil, if◌then◌else◌,
}
use wust_socket.Channel.{Sender, Deflater, Inflater}
use wust_socket.Role.{Role}
use wust_socket.Protocol.Mask.{MaskKey}
use wust_socket.Ws.Reader.{Reader, Ended, reader_loop, new_reader}
use wust_socket.Ws.Reader.Pieces.{as_reads, bytes_of}
use wust_socket.Ws.WebSocket.{WebSocket, Message, from_stream}
use wust_socket.Ws.WebSocket.Compressed.{Codec}
use wust_socket.Ws.WebSocket.Messages.{Sends, as_events}
use wust_socket.Ws.WebSocket.Conversation.{from_stream-delivers}
use wust_socket.Ws.Writer.{Chunk}
use wust_socket.Ws.Writer.Chunks.{closes, ctrls, datas}
use wust_socket.Ws.Writer.Order.{Run, Reach, initial, Reach-IsOrdered}

-- The bytes of what was written.
abbrev pub stream_bytes : List Chunk → List ℕ
stream_bytes [] = []
stream_bytes (Chunk.close b ∷ written) = b ++ stream_bytes written
stream_bytes (Chunk.ctrl b ∷ written) = b ++ stream_bytes written
stream_bytes (Chunk.data_frame b ∷ written) = b ++ stream_bytes written

stream_bytes-datas :
    (written : List Chunk)
    → closes written ≡ []
    → ctrls written ≡ []
    → stream_bytes written ≡ concat (datas written)
stream_bytes-datas [] h k = refl
stream_bytes-datas (Chunk.close b ∷ written) h k = cc
stream_bytes-datas (Chunk.ctrl b ∷ written) h k = cc
stream_bytes-datas (Chunk.data_frame b ∷ written) h k =
    ap (λ t. b ++ t) (stream_bytes-datas written h k)

append-nil_left : (xs ys : List (List ℕ)) → xs ++ ys ≡ [] → xs ≡ []
append-nil_left [] ys h = refl
append-nil_left (x ∷ xs) ys h = cc

-- A task that runs, has had nothing but data to send, and has nothing left to send.
pub record HasWritten (run : Run) (sent : List (List ℕ)) : Type 0 where
  pub runs : run.writer.running ≡ true
  pub all : run.sent_data ≡ sent
  pub no_ctrl : run.sent_ctrl ≡ []
  pub nothing_left : run.writer.data_rx.queue ≡ []

HasWritten-bytes :
    (run : Run) (sent : List (List ℕ))
    → Reach initial run
    → HasWritten run sent
    → stream_bytes run.writer.written ≡ concat sent
HasWritten-bytes run sent reach v =
    let o = Reach-IsOrdered reach in
    let c : closes run.writer.written ≡ [] = elim o.last_close [
      | inl e ↦ e
      | inr (front, b, e, n, stopped) ↦ cc (v.runs)
    ] in
    let k = append-nil_left (ctrls run.writer.written) o.ctrl.lost (
      append-nil_left (ctrls run.writer.written ++ o.ctrl.lost) run.writer.ctrl_rx.queue
        (o.ctrl.in_order ∙ v.no_ctrl)) in
    let d : datas run.writer.written ≡ sent =
      sym (append-nil (datas run.writer.written))
      ∙ sym (append-nil (datas run.writer.written ++ []))
      ∙ ap (λ q. datas run.writer.written ++ [] ++ q) (sym v.nothing_left)
      ∙ ap (λ l. datas run.writer.written ++ l ++ run.writer.data_rx.queue)
          (sym (o.data_frame.kept v.runs))
      ∙ o.data_frame.in_order
      ∙ v.all in
    stream_bytes-datas run.writer.written c k ∙ ap concat d

module _ (tx : Sender (List ℕ)) (zd : Deflater) (zi : Inflater) (codec : Codec zd zi) (r : Role)
    (compressed use_context : Bool) (reader_keys : ℕ → MaskKey) (keys : ℕ → ℕ → MaskKey) where
  open codec use {Linked}

  -- The way of all messages through the tasks: what a new handle sends without an error, its writer
  -- task writes to the stream, whatever steps the task and the channels have taken until it has
  -- written it all, and the reader task of the other end, reading the stream in whatever pieces,
  -- hands out the events of exactly these messages, in order. The task has had no control or close
  -- frame to write; both ends have the same settings; text is valid UTF-8, what is sent for each
  -- message has at most `MAX_MESSAGE_SIZE` bytes, and the new encoder and the new decoder are in step.
  pub writer-delivers :
      {ms : List Message} {ws' : WebSocket tx zd} (now : ℕ) (close_tx ctrl_tx data_tx : tx.State)
      (e : zd.Encoder) (d : zi.Decoder) (sent : List (List ℕ)) (run : Run)
      (reads : List (ℕ × List ℕ))
      → Linked e d
      → Sends tx zd r use_context keys ms
          (from_stream tx zd now close_tx ctrl_tx data_tx e compressed use_context)
          ws'
      → tx.sent ws'.data_tx ≡ tx.sent data_tx ++ sent
      → Reach initial run
      → HasWritten run sent
      → bytes_of reads ≡ stream_bytes run.writer.written
      → (s' : Reader zi r use_context reader_keys) × (reader_loop zi r use_context reader_keys
            (as_reads reads)
            (new_reader zi r use_context reader_keys now (if compressed then some d else none))
          ≡ some (Ended.breaks s'))
        × (s'.actions ≡ as_events ms)
  writer-delivers now close_tx ctrl_tx data_tx e d sent run reads l h all reach v same =
      from_stream-delivers tx zd zi codec r compressed use_context reader_keys keys now close_tx
        ctrl_tx data_tx e d sent reads l h all (same ∙ HasWritten-bytes run sent reach v)
