-- ===== src/Ws/FrameHandler/Interleaved.antt =====
-- Pings in the middle of other frames, as RFC 6455 allows them between the fragments of a message.
use wust_socket.Prelude.{
  ℕ, ◌+◌, ◌≤◌, ◌≡◌, ◌⊎◌, inl, inr, refl, sym, ap, ◌∙◌, arith, List, [], ◌∷◌, ◌++◌, Bool, false,
  length, All,
}
use wust_socket.Channel.{Inflater}
use wust_socket.Role.{Role}
use wust_socket.Protocol.Mask.{MaskKey}
use wust_socket.Frames.Opcode.{Opcode, is_control}
use wust_socket.Frames.Wire.{wire}
use wust_socket.Frames.Control
use wust_socket.Frames.Control.Layout.{encode-wire, control_header}
use wust_socket.Frames.Decode.Parse.{DecodedFrame}
use wust_socket.Ws.Event.{Event}
use wust_socket.Ws.FrameHandler.{
  Action, Flow, Conn, Handled, handle_frame, by_opcode, handle_data, append_frame, finish,
  handle_ping,
}
use wust_socket.Ws.FrameHandler.Assembly.{
  handle_frames, and_then, after_actions, and_then-goes_on, goes_on-and_then,
}

-- The frames without the pings.
abbrev pub without_pings : List DecodedFrame → List DecodedFrame
without_pings [] = []
without_pings (f ∷ fs) = elim f.opcode [ Opcode.ping ↦ without_pings fs | _ ↦ f ∷ without_pings fs ]

abbrev pub events_of : List Action → List Event
events_of [] = []
events_of (Action.event e ∷ actions) = e ∷ events_of actions
events_of (Action.ctrl b ∷ actions) = events_of actions
events_of (Action.close b ∷ actions) = events_of actions

abbrev pub ctrls_of : List Action → List (List ℕ)
ctrls_of [] = []
ctrls_of (Action.ctrl b ∷ actions) = b ∷ ctrls_of actions
ctrls_of (Action.event e ∷ actions) = ctrls_of actions
ctrls_of (Action.close b ∷ actions) = ctrls_of actions

-- Data, or a ping that fits a control frame.
abbrev pub IsDataOrPing : DecodedFrame → Type 0
IsDataOrPing f =
    (is_control f.opcode ≡ false) ⊎ ((f.opcode ≡ Opcode.ping) × (length f.payload ≤ 125))

without_pings-data :
    (f : DecodedFrame) (fs : List DecodedFrame)
    → is_control f.opcode ≡ false
    → without_pings (f ∷ fs) ≡ f ∷ without_pings fs
without_pings-data f fs h = ground arith

pub events_of-append : (xs ys : List Action) → events_of (xs ++ ys) ≡ events_of xs ++ events_of ys
events_of-append [] ys = refl
events_of-append (Action.event e ∷ xs) ys = ap (◌∷◌ e) (events_of-append xs ys)
events_of-append (Action.ctrl b ∷ xs) ys = events_of-append xs ys
events_of-append (Action.close b ∷ xs) ys = events_of-append xs ys

pub ctrls_of-append : (xs ys : List Action) → ctrls_of (xs ++ ys) ≡ ctrls_of xs ++ ctrls_of ys
ctrls_of-append [] ys = refl
ctrls_of-append (Action.ctrl b ∷ xs) ys = ap (◌∷◌ b) (ctrls_of-append xs ys)
ctrls_of-append (Action.event e ∷ xs) ys = ctrls_of-append xs ys
ctrls_of-append (Action.close b ∷ xs) ys = ctrls_of-append xs ys

module _ (z : Inflater) (r : Role) (use_context : Bool) (now : ℕ) where
  -- The key of a draw matters only for the frame that a handler sends.
  handle_data-key :
      (key key' : MaskKey) (f : DecodedFrame) (c : Conn z)
      → (handle_data z r key use_context f c).flow ≡ Flow.goes_on
      → handle_data z r key' use_context f c ≡ handle_data z r key use_context f c
  unfolding handle_data append_frame finish
  handle_data-key key key' f c h = ground arith

  handle_data-ctrls :
      (key : MaskKey) (f : DecodedFrame) (c : Conn z)
      → (handle_data z r key use_context f c).flow ≡ Flow.goes_on
      → ctrls_of (handle_data z r key use_context f c).actions ≡ []
  unfolding handle_data append_frame finish
  handle_data-ctrls key f c h = ground arith

  by_opcode-key :
      (key key' : MaskKey) (o : Opcode) (f : DecodedFrame) (c : Conn z)
      → is_control o ≡ false
      → (by_opcode z r key now use_context o f c).flow ≡ Flow.goes_on
      → (by_opcode z r key' now use_context o f c ≡ by_opcode z r key now use_context o f c)
        × (ctrls_of (by_opcode z r key now use_context o f c).actions ≡ [])
  unfolding by_opcode
  by_opcode-key key key' Opcode.text f c d h =
      (handle_data-key key key' f c h, handle_data-ctrls key f c h)
  by_opcode-key key key' Opcode.bin f c d h =
      (handle_data-key key key' f c h, handle_data-ctrls key f c h)
  by_opcode-key key key' Opcode.cont f c d h =
      (handle_data-key key key' f c h, handle_data-ctrls key f c h)
  by_opcode-key key key' Opcode.ping f c d h = absurd (cc)
  by_opcode-key key key' Opcode.pong f c d h = absurd (cc)
  by_opcode-key key key' Opcode.close f c d h = absurd (cc)

  -- A ping is answered with a pong that has the same payload.
  pub by_opcode-ping :
      (key : MaskKey) (f : DecodedFrame) (c : Conn z)
      → length f.payload ≤ 125
      → by_opcode z r key now use_context Opcode.ping f c ≡ record {
        flow = Flow.goes_on;
        conn = c;
        actions = Action.ctrl (wire r (control_header Opcode.pong) key f.payload) ∷ [];
      }
  unfolding by_opcode handle_ping Control.pong
  by_opcode-ping key f c h = rw (encode-wire r Opcode.pong f.payload key h) refl

  module _ (keys : ℕ → MaskKey) where
    -- The answers to the pings, each with the key of its draw.
    abbrev pub pongs : ℕ → List DecodedFrame → List (List ℕ)
    pongs i [] = []
    pongs i (f ∷ fs) = elim f.opcode [
      | Opcode.ping ↦ wire r (control_header Opcode.pong) (keys i) f.payload ∷ pongs (i + 1) fs
      | _ ↦ pongs (i + 1) fs
    ]

    abbrev run : ℕ → List DecodedFrame → Conn z → Handled z
    run i fs c = handle_frames z r keys now use_context i fs c

    pongs-data :
        (i : ℕ) (f : DecodedFrame) (fs : List DecodedFrame)
        → is_control f.opcode ≡ false
        → pongs i (f ∷ fs) ≡ pongs (i + 1) fs
    pongs-data i f fs h = ground arith

    -- A frame whose handler goes on, and then the others.
    run-next :
        (i : ℕ) (f : DecodedFrame) (fs : List DecodedFrame) (c : Conn z) (h : Handled z)
        → handle_frame z r (keys i) now use_context f c ≡ h
        → h.flow ≡ Flow.goes_on
        → run i (f ∷ fs) c
          ≡ after_actions z r keys now use_context h.actions (run (i + 1) fs h.conn)
    unfolding handle_frames
    run-next i f fs c h e g =
        ap (λ x. and_then z r keys now use_context x (λ c'. run (i + 1) fs c')) e
        ∙ goes_on-and_then z r keys now use_context h (λ c'. run (i + 1) fs c') g

    -- Pings between the frames of messages disturb nothing: if the handlers go on with the frames of
    -- data alone, they go on with the pings among them, and end in the same state; the events are the
    -- same, in the same order, and each ping is answered by a pong with its payload, in the order of
    -- the pings. A ping has at most 125 bytes.
    pub handle_frames-pings :
        (i j : ℕ) (fs : List DecodedFrame) (c : Conn z)
        → All IsDataOrPing fs
        → (run j (without_pings fs) c).flow ≡ Flow.goes_on
        → ((run i fs c).flow ≡ Flow.goes_on)
          × ((run i fs c).conn ≡ (run j (without_pings fs) c).conn)
          × (events_of (run i fs c).actions ≡ events_of (run j (without_pings fs) c).actions)
          × (ctrls_of (run i fs c).actions ≡ pongs i fs)
    unfolding handle_frames handle_frame
    handle_frames-pings i j [] c h g = (refl, refl, refl, refl)
    handle_frames-pings i j (f ∷ fs) c h g = elim h.0 [
      | inl d ↦
          let plain = without_pings-data f fs d in
          let h1 = handle_frame z r (keys j) now use_context f c in
          let rest : Conn z → Handled z = λ c'. run (j + 1) (without_pings fs) c' in
          let (one, two, both) =
            and_then-goes_on z r keys now use_context h1 rest
              (ap (λ gs. (run j gs c).flow) (sym plain) ∙ g) in
          let (same, silent) = by_opcode-key (keys j) (keys i) f.opcode f c d one in
          let out = run-next i f fs c h1 same one in
          let alone = ap (λ gs. run j gs c) plain ∙ both in
          let (flow, conn, events, answers) =
            handle_frames-pings (i + 1) (j + 1) fs h1.conn h.1 two in
          (
            ap (λ x. x.flow) out ∙ flow,
            ap (λ x. x.conn) out ∙ conn ∙ ap (λ x. x.conn) (sym alone),
            ap (λ x. events_of x.actions) out
                ∙ events_of-append h1.actions (run (i + 1) fs h1.conn).actions
                ∙ ap (λ t. events_of h1.actions ++ t) events
                ∙ sym (events_of-append h1.actions (rest h1.conn).actions)
                ∙ ap (λ x. events_of x.actions) (sym alone),
            ap (λ x. ctrls_of x.actions) out
                ∙ ctrls_of-append h1.actions (run (i + 1) fs h1.conn).actions
                ∙ ap (λ t. t ++ ctrls_of (run (i + 1) fs h1.conn).actions) silent
                ∙ answers
                ∙ sym (pongs-data i f fs d),
          )
      | inr (p, l) ↦
          let pong = Action.ctrl (wire r (control_header Opcode.pong) (keys i) f.payload) in
          let plain : without_pings (f ∷ fs) ≡ without_pings fs = rw p refl in
          let answered : handle_frame z r (keys i) now use_context f c
              ≡ record { flow = Flow.goes_on; conn = c; actions = pong ∷ [] } =
            ap (λ o. by_opcode z r (keys i) now use_context o f c) p
            ∙ by_opcode-ping (keys i) f c l in
          let out = run-next i f fs c _ answered refl in
          let alone = ap (λ gs. run j gs c) plain in
          let (flow, conn, events, answers) =
            handle_frames-pings (i + 1) j fs c h.1 (ap (λ x. x.flow) (sym alone) ∙ g) in
          let more : pongs i (f ∷ fs)
              ≡ wire r (control_header Opcode.pong) (keys i) f.payload ∷ pongs (i + 1) fs =
            rw p refl in
          (
            ap (λ x. x.flow) out ∙ flow,
            ap (λ x. x.conn) out ∙ conn ∙ ap (λ x. x.conn) (sym alone),
            ap (λ x. events_of x.actions) out ∙ events ∙ ap (λ x. events_of x.actions) (sym alone),
            ap (λ x. ctrls_of x.actions) out
                ∙ ap (◌∷◌ (wire r (control_header Opcode.pong) (keys i) f.payload)) answers
                ∙ sym more,
          )
    ]
