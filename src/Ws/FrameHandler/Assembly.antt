-- ===== src/Ws/FrameHandler/Assembly.antt =====
-- A message from its frames: the frames of one message give one event.
use wust_socket.Prelude.{
  ℕ, ◌+◌, ◌≤◌, ◌≡◌, refl, ap, ◌∙◌, arith, List, [], ◌∷◌, ◌++◌, Option, none, some, Bool, true,
  false, length, ok, is_empty, length-append, append_assoc, append-nil, concat, le→ltb,
}
use wust_socket.Channel.{Inflater}
use wust_socket.Role.{Role}
use wust_socket.Protocol.Mask.{MaskKey}
use wust_socket.Frames.Limits.{max_message_size}
use wust_socket.Frames.Opcode.{Opcode}
use wust_socket.Frames.Decode.Parse.{DecodedFrame}
use wust_socket.Frames.Data.Layout.{data_header}
use wust_socket.Frames.Delivery.{message_frames}
use wust_socket.Frames.RoundTrip.Steps.{decoded}
use wust_socket.Ws.Event.{Event, PartialMessage, into_message, push_bytes, partial_len}
use wust_socket.Ws.FrameHandler.{
  Action, Flow, Conn, Handled, handle_data, append_frame, handle_frame,
}

-- The empty message that the first frame of a message begins.
abbrev pub starts : Opcode → Option PartialMessage
starts Opcode.text = some (PartialMessage.text [])
starts Opcode.bin = some (PartialMessage.binary [])
starts _ = none

starts_empty : (opcode : Opcode) (p : PartialMessage) → starts opcode ≡ some p → partial_len p ≡ 0
starts_empty opcode p e = ground arith

module _ (z : Inflater) (r : Role) (keys : ℕ → MaskKey) (now : ℕ) (use_context : Bool) where
  abbrev pub after_actions : List Action → Handled z → Handled z
  after_actions actions rest = record rest { actions = actions ++ rest.actions }

  -- The next frame is handled if this one's handler goes on.
  abbrev pub and_then : Handled z → (Conn z → Handled z) → Handled z
  and_then h k = elim h.flow [ Flow.goes_on ↦ after_actions h.actions (k h.conn) | _ ↦ h ]

  pub goes_on-and_then :
      (h : Handled z) (k : Conn z → Handled z)
      → h.flow ≡ Flow.goes_on
      → and_then h k ≡ after_actions h.actions (k h.conn)
  goes_on-and_then h k e = rw e refl

  pub and_then-goes_on :
      (h : Handled z) (k : Conn z → Handled z)
      → (and_then h k).flow ≡ Flow.goes_on
      → (h.flow ≡ Flow.goes_on)
        × ((k h.conn).flow ≡ Flow.goes_on)
        × (and_then h k ≡ after_actions h.actions (k h.conn))
  and_then-goes_on h k e = ground arith

  -- The handlers on a sequence of frames, until one of them stops.
  unfoldable pub handle_frames : ℕ → List DecodedFrame → Conn z → Handled z
  handle_frames i [] c = record { flow = Flow.goes_on; conn = c; actions = [] }
  handle_frames i (f ∷ fs) c =
      and_then (handle_frame z r (keys i) now use_context f c) (λ c'. handle_frames (i + 1) fs c')

  -- A frame in the middle of a message adds its payload.
  append_frame-open :
      (key : MaskKey) (f : DecodedFrame) (p : PartialMessage) (c : Conn z)
      → f.is_fin ≡ false
      → partial_len p + length f.payload ≤ max_message_size
      → append_frame z r key use_context f p c ≡ record {
        flow = Flow.goes_on;
        conn = record c { partial_msg = some (push_bytes p f.payload) };
        actions = [];
      }
  unfolding append_frame
  append_frame-open key f p c h l =
      rw (h, le→ltb max_message_size (partial_len p + length f.payload) l)

  -- The last frame of a message that can be decoded hands it out.
  append_frame-final :
      (key : MaskKey) (f : DecodedFrame) (p : PartialMessage) (c : Conn z) (msg : Event)
      (i : Option z.Decoder)
      → f.is_fin ≡ true
      → partial_len p + length f.payload ≤ max_message_size
      → into_message z (push_bytes p f.payload) c.inflater use_context ≡ (ok msg, i)
      → append_frame z r key use_context f p c ≡ record {
        flow = Flow.goes_on;
        conn = record c { partial_msg = none; inflater = i };
        actions = Action.event msg ∷ [];
      }
  unfolding append_frame
  append_frame-final key f p c msg i h l e =
      rw (h, le→ltb max_message_size (partial_len p + length f.payload) l, e)

  push_bytes-append :
      (p : PartialMessage) (xs ys : List ℕ)
      → push_bytes (push_bytes p xs) ys ≡ push_bytes p (xs ++ ys)
  push_bytes-append (PartialMessage.text v) xs ys = ap PartialMessage.text (append_assoc v xs ys)
  push_bytes-append (PartialMessage.binary v) xs ys =
      ap PartialMessage.binary (append_assoc v xs ys)

  partial_len-push :
      (p : PartialMessage) (xs : List ℕ) → partial_len (push_bytes p xs) ≡ partial_len p + length xs
  partial_len-push (PartialMessage.text v) xs = length-append v xs
  partial_len-push (PartialMessage.binary v) xs = length-append v xs

  handle_frame-cont :
      (key : MaskKey) (f : DecodedFrame) (p : PartialMessage) (c : Conn z)
      → f.opcode ≡ Opcode.cont
      → f.compressed ≡ false
      → c.partial_msg ≡ some p
      → handle_frame z r key now use_context f c ≡ append_frame z r key use_context f p c
  unfolding handle_frame handle_data
  handle_frame-cont key f p c o h m = ground arith

  handle_frame-first :
      (key : MaskKey) (f : DecodedFrame) (opcode : Opcode) (p : PartialMessage) (c : Conn z)
      → f.opcode ≡ opcode
      → starts opcode ≡ some p
      → c.partial_msg ≡ none
      → handle_frame z r key now use_context f c ≡ append_frame z r key use_context f p c
  unfolding handle_frame handle_data
  handle_frame-first key f Opcode.text p c o s m = ground arith
  handle_frame-first key f Opcode.bin p c o s m = ground arith
  handle_frame-first key f _ p c o s m = cc

  -- What is left when a message is done.
  abbrev pub delivered : Conn z → Option z.Decoder → Event → Handled z
  delivered c i msg = record {
    flow = Flow.goes_on;
    conn = record c { partial_msg = none; inflater = i };
    actions = Action.event msg ∷ [];
  }

  handle_frames-one :
      (i : ℕ) (f : DecodedFrame) (c : Conn z) (j : Option z.Decoder) (msg : Event)
      → handle_frame z r (keys i) now use_context f c ≡ delivered c j msg
      → handle_frames i (f ∷ []) c ≡ delivered c j msg
  unfolding handle_frames
  handle_frames-one i f c j msg e = ap (λ h. and_then h (λ c'. handle_frames (i + 1) [] c')) e

  handle_frames-more :
      (i : ℕ) (f : DecodedFrame) (fs : List DecodedFrame) (c c' : Conn z)
      → handle_frame z r (keys i) now use_context f c
        ≡ record { flow = Flow.goes_on; conn = c'; actions = [] }
      → handle_frames i (f ∷ fs) c ≡ handle_frames (i + 1) fs c'
  unfolding handle_frames
  handle_frames-more i f fs c c' e = ap (λ h. and_then h (λ c2. handle_frames (i + 1) fs c2)) e

  -- The frames of the fragments `x ∷ xs`, once the first of them adds to the message `p`.
  handle_frames-fragments :
      (opcode : Opcode) (compressed first : Bool) (i : ℕ) (x : List ℕ) (xs : List (List ℕ))
      (p : PartialMessage) (c : Conn z) (msg : Event) (j : Option z.Decoder)
      → (let f = decoded (data_header opcode first (is_empty xs) compressed) x in
          handle_frame z r (keys i) now use_context f c
          ≡ append_frame z r (keys i) use_context f p c)
      → partial_len p + length (concat (x ∷ xs)) ≤ max_message_size
      → into_message z (push_bytes p (concat (x ∷ xs))) c.inflater use_context ≡ (ok msg, j)
      → handle_frames i (message_frames opcode compressed first (x ∷ xs)) c ≡ delivered c j msg
  unfolding message_frames
  handle_frames-fragments opcode compressed first i x [] p c msg j head fits e =
      let whole : concat (x ∷ []) ≡ x = append-nil x in
      let f = decoded (data_header opcode first true compressed) x in
      handle_frames-one i f c j msg
        (head ∙ append_frame-final (keys i) f p c msg j refl (rw whole at fits) (rw whole at e))
  handle_frames-fragments opcode compressed first i x (y ∷ ys) p c msg j head fits e =
      let f = decoded (data_header opcode first false compressed) x in
      let g = decoded (data_header opcode false (is_empty ys) compressed) y in
      let c' : Conn z = record c { partial_msg = some (push_bytes p x) } in
      let size = length-append x (concat (y ∷ ys)) in
      handle_frames-more i f (message_frames opcode compressed false (y ∷ ys)) c c'
        (head ∙ append_frame-open (keys i) f p c refl (omega (arith, size)))
      ∙ handle_frames-fragments opcode compressed false (i + 1) y ys (push_bytes p x) c' msg j
          (handle_frame-cont (keys (i + 1)) g (push_bytes p x) c' refl refl refl)
          (omega (arith, size, partial_len-push p x))
          (ap (λ m. into_message z m c.inflater use_context)
              (push_bytes-append p x (concat (y ∷ ys)))
            ∙ e)

  -- The frames of one message, handled with no message begun, give exactly one event: what
  -- `into_message` makes of the whole payload, if it makes an event of it. The condition is that
  -- the payload is at most `MAX_MESSAGE_SIZE` long. Nothing else of the connection changes, but
  -- for the inflate stream.
  pub handle_frames-message :
      (opcode : Opcode) (compressed : Bool) (i : ℕ) (parts : List (List ℕ)) (p : PartialMessage)
      (c : Conn z) (msg : Event) (j : Option z.Decoder)
      → starts opcode ≡ some p
      → is_empty parts ≡ false
      → c.partial_msg ≡ none
      → length (concat parts) ≤ max_message_size
      → into_message z (push_bytes p (concat parts)) c.inflater use_context ≡ (ok msg, j)
      → handle_frames i (message_frames opcode compressed true parts) c ≡ delivered c j msg
  handle_frames-message opcode compressed i [] p c msg j s n m fits e = cc
  handle_frames-message opcode compressed i (x ∷ xs) p c msg j s n m fits e =
      handle_frames-fragments opcode compressed true i x xs p c msg j
        (handle_frame-first (keys i) (decoded (data_header opcode true (is_empty xs) compressed) x)
          opcode p c refl s m)
        (omega (arith, starts_empty opcode p s)) e
