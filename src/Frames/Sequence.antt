-- ===== src/Frames/Sequence.antt =====
-- Frames in the layout of the RFC, one behind the other, and the decoder that reads them.
use wust_socket.Prelude.{ℕ, ◌≤◌, ◌≡◌, List, [], ◌∷◌, ◌++◌, Bool, true, length, All}
use wust_socket.Role.{Role, peer}
use wust_socket.Protocol.Mask.{MaskKey}
use wust_socket.Frames.Limits.{max_frame_payload}
use wust_socket.Frames.Opcode.{Opcode}
use wust_socket.Frames.Wire.{Header, wire}
use wust_socket.Frames.Decode.Parse.{FrameDecoder, DecodedFrame, is_valid_close_payload}
use wust_socket.Frames.RoundTrip.{IsReady, next_frame-wire}
use wust_socket.Frames.RoundTrip.Steps.{IsAllowed, decoded}
use wust_socket.Frames.Delivery.{Gives, Gives-nil, Gives-cons}

-- A frame before it is laid out.
pub record Frame : Type 0 where
  pub header : Header
  pub key : MaskKey
  pub payload : List ℕ

-- A frame that the decoder takes.
pub record IsTaken (deflate : Bool) (f : Frame) : Type 0 where
  pub allowed : IsAllowed deflate f.header (length f.payload)
  pub fits : length f.payload ≤ max_frame_payload
  pub valid_close : f.header.opcode ≡ Opcode.close → is_valid_close_payload f.payload ≡ true

-- The bytes of the frames as this end sends them.
abbrev pub wires : Role → List Frame → List ℕ
wires r [] = []
wires r (f ∷ fs) = wire r f.header f.key f.payload ++ wires r fs

abbrev pub decoded_all : List Frame → List DecodedFrame
decoded_all [] = []
decoded_all (f ∷ fs) = decoded f.header f.payload ∷ decoded_all fs

-- The decoder at the other end gives exactly these frames.
pub wires-Gives :
    (r : Role) (deflate : Bool) (fs : List Frame) (d : FrameDecoder)
    → All (IsTaken deflate) fs
    → IsReady d deflate (wires (peer r) fs)
    → Gives r d deflate (decoded_all fs)
wires-Gives r deflate [] d taken ready = Gives-nil r d deflate ready
wires-Gives r deflate (f ∷ fs) d taken ready =
    let (d', e, ready') =
      next_frame-wire r deflate f.header f.key f.payload (wires (peer r) fs) d ready taken.0.allowed
        taken.0.fits taken.0.valid_close in
    Gives-cons r d d' deflate (decoded f.header f.payload) (decoded_all fs) e
      (wires-Gives r deflate fs d' taken.1 ready')
