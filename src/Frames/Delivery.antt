-- ===== src/Frames/Delivery.antt =====
-- From `all_frames` at one end to the decoder at the other: a whole message.
use wust_socket.Prelude.{
  ℕ, ◌+◌, ◌≤◌, ◌≡◌, refl, sym, ap, ◌∙◌, List, [], ◌∷◌, ◌++◌, none, some, Bool, true, false,
  is_empty, length, ok, arith, append-nil, All, concat,
}
use wust_socket.Channel.{Sender}
use wust_socket.Role.{Role, peer}
use wust_socket.Protocol.Mask.{MaskKey}
use wust_socket.Frames.Limits.{max_frame_payload}
use wust_socket.Frames.Opcode.{Opcode, is_control}
use wust_socket.Frames.Data.{all_frames}
use wust_socket.Frames.Data.Layout.{data_header}
use wust_socket.Frames.Data.Message.{frames_from, is_ok}
use wust_socket.Frames.Data.Fragments.{all_frames_by-Sends}
use wust_socket.Frames.Data.Parts.{fragments, fragments-parts}
use wust_socket.Frames.Decode.Parse.{FrameDecoder, FrameState, DecodedFrame}
use wust_socket.Frames.Decode.{next_frame, step, returns, push_bytes}
use wust_socket.Frames.Decode.Progress.{next_frame-returns}
use wust_socket.Frames.Decode.Stream.{
  Drained, drain, prepend, prepend_first, drain-last, drain-frame,
}
use wust_socket.Frames.RoundTrip.{IsReady, next_frame-wire}
use wust_socket.Frames.RoundTrip.Steps.{IsAllowed, decoded}

-- The frames that the receiver is to see: the opcode and the extension bit on the first, FIN on
-- the last.
unfoldable pub message_frames : Opcode → Bool → Bool → List (List ℕ) → List DecodedFrame
message_frames opcode compressed first [] = []
message_frames opcode compressed first (x ∷ xs) =
    decoded (data_header opcode first (is_empty xs) compressed) x
    ∷ message_frames opcode compressed false xs

-- A decoder that has read everything between two frames.
pub idle :
    (r : Role) (d : FrameDecoder) (deflate : Bool)
    → IsReady d deflate []
    → next_frame r d ≡ some (ok none, d)
idle r d deflate ready = next_frame-returns r d d at_end
  where
    at_end : step r d ≡ returns (ok none) d
    at_end = unfold step in ground arith

-- The calls of the decoder give these frames and then ask for more bytes.
pub record Gives (r : Role) (d : FrameDecoder) (deflate : Bool) (frames : List DecodedFrame)
    : Type 0 where
  pub result : Drained
  pub drains : drain r d ≡ some result
  pub same_frames : result.frames ≡ frames
  pub waits : result.last ≡ ok none
  pub ready : IsReady result.decoder deflate []

pub Gives-nil :
    (r : Role) (d : FrameDecoder) (deflate : Bool) → IsReady d deflate [] → Gives r d deflate []
Gives-nil r d deflate ready = record {
  result = record { frames = []; last = ok none; decoder = d };
  drains = drain-last r d d (ok none) (idle r d deflate ready) refl;
  same_frames = refl;
  waits = refl;
  ready = ready;
}

pub Gives-cons :
    (r : Role) (d d' : FrameDecoder) (deflate : Bool) (f : DecodedFrame)
    (frames : List DecodedFrame)
    → next_frame r d ≡ some (ok (some (FrameState.complete f)), d')
    → Gives r d' deflate frames
    → Gives r d deflate (f ∷ frames)
Gives-cons r d d' deflate f frames e rest = record {
  result = prepend f rest.result;
  drains = drain-frame r d d' _ f e refl ∙ ap (prepend_first f) rest.drains;
  same_frames = ap (◌∷◌ f) rest.same_frames;
  waits = rest.waits;
  ready = rest.ready;
}

is_data_header :
    (opcode : Opcode) (first last compressed : Bool)
    → is_control opcode ≡ false
    → is_control (data_header opcode first last compressed).opcode ≡ false
is_data_header opcode true last compressed h = h
is_data_header opcode false last compressed h = refl

data-IsAllowed :
    (opcode : Opcode) (first last compressed deflate : Bool) (n : ℕ)
    → is_control opcode ≡ false
    → (compressed ≡ true → deflate ≡ true)
    → IsAllowed deflate (data_header opcode first last compressed) n
data-IsAllowed opcode first last compressed deflate n h agreed =
    let plain = is_data_header opcode first last compressed h in
    record {
      agreed = λ e. agreed (ground arith);
      whole = λ c. cc;
      plain = λ c. cc;
      short = λ c. absurd (ground arith);
    }

Gives-frames :
    (r : Role) (deflate : Bool) (opcode : Opcode) (compressed : Bool) (keys : ℕ → MaskKey)
    → is_control opcode ≡ false
    → (compressed ≡ true → deflate ≡ true)
    → (i : ℕ) (first : Bool) (parts : List (List ℕ)) (d : FrameDecoder)
    → All (λ x. length x ≤ max_frame_payload) parts
    → IsReady d deflate (concat (frames_from (peer r) opcode compressed keys true i first parts))
    → Gives r d deflate (message_frames opcode compressed first parts)
unfolding frames_from message_frames
Gives-frames r deflate opcode compressed keys plain agreed i first [] d sizes ready =
    Gives-nil r d deflate ready
Gives-frames r deflate opcode compressed keys plain agreed i first (x ∷ xs) d sizes ready =
    let h = data_header opcode first (is_empty xs) compressed in
    let (d', e, ready') =
      next_frame-wire r deflate h (keys i) x
        (concat (frames_from (peer r) opcode compressed keys true (i + 1) false xs)) d ready
        (data-IsAllowed opcode first (is_empty xs) compressed deflate (length x) plain agreed)
        sizes.0
        (λ c. cc (is_data_header opcode first (is_empty xs) compressed plain, ap is_control c)) in
    Gives-cons r d d' deflate (decoded h x) (message_frames opcode compressed false xs) e (
      Gives-frames r deflate opcode compressed keys plain agreed (i + 1) false xs d' sizes.1 ready')

pub IsReady-push :
    {d : FrameDecoder} {deflate : Bool}
    → IsReady d deflate []
    → (bytes : List ℕ) → IsReady (push_bytes d bytes) deflate bytes
unfolding push_bytes
IsReady-push ready bytes = record {
  at_start = ready.at_start;
  buffered = ap (λ b. b ++ bytes) ready.buffered;
  setting = ready.setting;
}

-- What one end sends as a message, the other end decodes. If every send succeeds, the bytes that
-- `all_frames` has sent, put together, make a decoder at the other end that has nothing buffered
-- give the fragments of the message in order, unmasked, with the opcode and the compression bit on
-- the first and FIN on the last, and then ask for more bytes. There is at least one fragment, each
-- is at most `MAX_FRAME_PAYLOAD` long, and together they are the message. The opcode is that of
-- data, and compression was agreed on if the message is compressed.
pub all_frames-Gives :
    (tx : Sender (List ℕ)) (r : Role) (deflate : Bool) (opcode : Opcode) (compressed : Bool)
    (keys : ℕ → MaskKey) (payload : List ℕ) (s : tx.State) (d : FrameDecoder)
    → IsReady d deflate []
    → is_control opcode ≡ false
    → (compressed ≡ true → deflate ≡ true)
    → (u : Unit {0}) → (all_frames tx (peer r) opcode payload compressed keys s).0 ≡ ok u
    → (bytes : List (List ℕ)) × (parts : List (List ℕ)) × (tx.sent
          (all_frames tx (peer r) opcode payload compressed keys s).1
        ≡ tx.sent s ++ bytes)
      × (concat parts ≡ payload)
      × All (λ x. length x ≤ max_frame_payload) parts
      × (is_empty parts ≡ false)
      × Gives r (push_bytes d (concat bytes)) deflate (message_frames opcode compressed true parts)
unfolding all_frames
all_frames-Gives tx r deflate opcode compressed keys payload s d ready plain agreed u e =
    let all =
      all_frames_by-Sends tx (peer r) opcode compressed keys max_frame_payload payload s
        (omega arith) (omega arith) in
    let (whole, sizes, some_part) = fragments-parts max_frame_payload payload (omega arith) in
    let now = tx.sent (all_frames tx (peer r) opcode payload compressed keys s).1 in
    let bytes =
      frames_from (peer r) opcode compressed keys true 0 true
        (fragments max_frame_payload payload) in
    (
      bytes,
      fragments max_frame_payload payload,
      sym (append-nil now)
          ∙ ap (λ t. now ++ t) (sym (all.nothing_left (ap is_ok e)))
          ∙ all.in_order,
      whole,
      sizes,
      some_part,
      Gives-frames r deflate opcode compressed keys plain agreed 0 true
          (fragments max_frame_payload payload) (push_bytes d (concat bytes)) sizes
          (IsReady-push ready (concat bytes)),
    )
