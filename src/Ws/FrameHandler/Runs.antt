-- ===== src/Ws/FrameHandler/Runs.antt =====
-- The handlers on frames, one after the other: two runs in a row, and the time of the read,
-- which matters for pongs only.
use wust_socket.Prelude.{
  ℕ, suc, ◌+◌, ◌≡◌, ◌≢◌, refl, sym, ap, ◌∙◌, arith, List, [], ◌∷◌, ◌++◌, Bool, false, length,
  append_assoc, All,
}
use wust_socket.Channel.{Inflater}
use wust_socket.Role.{Role}
use wust_socket.Protocol.Mask.{MaskKey}
use wust_socket.Frames.Opcode.{Opcode, is_control}
use wust_socket.Frames.Decode.Parse.{DecodedFrame}
use wust_socket.Ws.FrameHandler.{Flow, Conn, Handled, handle_frame, by_opcode}
use wust_socket.Ws.FrameHandler.Assembly.{
  handle_frames, and_then, after_actions, and_then-goes_on, goes_on-and_then,
}

-- Frames but pongs, whose latency is the time since the ping.
abbrev pub IsTimeless : DecodedFrame → Type 0
IsTimeless f = f.opcode ≢ Opcode.pong

pub data-IsTimeless : (o : Opcode) → is_control o ≡ false → o ≢ Opcode.pong
data-IsTimeless o h = λ e. cc (ap is_control e, h)

module _ (z : Inflater) (r : Role) (use_context : Bool) (keys : ℕ → MaskKey) where
  abbrev run : ℕ → List DecodedFrame → Conn z → Handled z
  run i fs c = handle_frames z r keys 0 use_context i fs c

  by_opcode-now :
      (key : MaskKey) (now : ℕ) (o : Opcode) (f : DecodedFrame) (c : Conn z)
      → o ≢ Opcode.pong
      → by_opcode z r key now use_context o f c ≡ by_opcode z r key 0 use_context o f c
  unfolding by_opcode
  by_opcode-now key now Opcode.text f c h = refl
  by_opcode-now key now Opcode.bin f c h = refl
  by_opcode-now key now Opcode.cont f c h = refl
  by_opcode-now key now Opcode.ping f c h = refl
  by_opcode-now key now Opcode.pong f c h = absurd (h refl)
  by_opcode-now key now Opcode.close f c h = refl

  abbrev chain : Handled z → (Conn z → Handled z) → Handled z
  chain h k = and_then z r keys 0 use_context h k

  chain-ap :
      (h : Handled z) (k k' : Conn z → Handled z) → k h.conn ≡ k' h.conn → chain h k ≡ chain h k'
  chain-ap h k k' e = ground arith

  chain_assoc :
      (h : Handled z) (k k2 : Conn z → Handled z)
      → chain h (λ c. chain (k c) k2) ≡ chain (chain h k) k2
  chain_assoc h k k2 =
      ground (arith, append_assoc h.actions (k h.conn).actions (k2 (k h.conn).conn).actions)

  handle_frame-now :
      (key : MaskKey) (now : ℕ) (f : DecodedFrame) (c : Conn z)
      → IsTimeless f
      → handle_frame z r key now use_context f c ≡ handle_frame z r key 0 use_context f c
  unfolding handle_frame by_opcode
  handle_frame-now key now f c h = by_opcode-now key now f.opcode f c h

  pub handle_frames-now :
      (now i : ℕ) (fs : List DecodedFrame) (c : Conn z)
      → All IsTimeless fs
      → handle_frames z r keys now use_context i fs c ≡ run i fs c
  unfolding handle_frames
  handle_frames-now now i [] c h = refl
  handle_frames-now now i (f ∷ fs) c h =
      let h1 = handle_frame z r (keys i) 0 use_context f c in
      ap (λ x. chain x (λ c'. handle_frames z r keys now use_context (i + 1) fs c'))
        (handle_frame-now (keys i) now f c h.0)
      ∙ chain-ap h1 (λ c'. handle_frames z r keys now use_context (i + 1) fs c')
          (λ c'. run (i + 1) fs c') (handle_frames-now now (i + 1) fs h1.conn h.1)

  handle_frames-append :
      (i : ℕ) (fs gs : List DecodedFrame) (c : Conn z)
      → run i (fs ++ gs) c
        ≡ and_then z r keys 0 use_context (run i fs c) (λ c'. run (i + length fs) gs c')
  unfolding handle_frames
  handle_frames-append i [] gs c = let e : i ≡ i + 0 = omega arith in ap (λ n. run n gs c) e
  handle_frames-append i (f ∷ fs) gs c =
      let h = handle_frame z r (keys i) 0 use_context f c in
      let e : i + 1 + length fs ≡ i + suc (length fs) = omega arith in
      chain-ap h (λ c'. run (i + 1) (fs ++ gs) c')
        (λ c'. chain (run (i + 1) fs c') (λ c2. run (i + 1 + length fs) gs c2))
        (handle_frames-append (i + 1) fs gs h.conn)
      ∙ chain_assoc h (λ c'. run (i + 1) fs c') (λ c'. run (i + 1 + length fs) gs c')
      ∙ ap (λ n. chain (chain h (λ c'. run (i + 1) fs c')) (λ c'. run n gs c')) e

  -- Two runs, one after the other.
  pub run-split :
      (i : ℕ) (fs gs : List DecodedFrame) (c : Conn z)
      → (run i (fs ++ gs) c).flow ≡ Flow.goes_on
      → ((run i fs c).flow ≡ Flow.goes_on)
        × ((run (i + length fs) gs (run i fs c).conn).flow ≡ Flow.goes_on)
        × (run i (fs ++ gs) c
            ≡ after_actions z r keys 0 use_context
                (run i fs c).actions
                (run (i + length fs) gs (run i fs c).conn))
  run-split i fs gs c h =
      let e = handle_frames-append i fs gs c in
      let (one, two, both) =
        and_then-goes_on z r keys 0 use_context (run i fs c) (λ c'. run (i + length fs) gs c')
          (ap (λ x. x.flow) (sym e) ∙ h) in
      (one, two, e ∙ both)

  pub run-join :
      (i : ℕ) (fs gs : List DecodedFrame) (c : Conn z)
      → (run i fs c).flow ≡ Flow.goes_on
      → run i (fs ++ gs) c
        ≡ after_actions z r keys 0 use_context
            (run i fs c).actions
            (run (i + length fs) gs (run i fs c).conn)
  run-join i fs gs c h =
      handle_frames-append i fs gs c
      ∙ goes_on-and_then z r keys 0 use_context (run i fs c) (λ c'. run (i + length fs) gs c') h
