-- ===== src/Examples/Frames.antt =====
-- The codec at concrete frames.
use wust_socket.Prelude.{
  ℕ, ◌≤◌, ◌≡◌, refl, arith, List, [], ◌∷◌, ◌++◌, Option, some, true, false, length, Result, ok,
  concat, All, is_empty,
}
use wust_socket.Role.{Role}
use wust_socket.Protocol.Mask.{mask, mask_lin, mask_from}
use wust_socket.Frames.Limits.{max_frame_payload}
use wust_socket.Frames.Opcode.{Opcode, try_from}
use wust_socket.Frames.Wire.{wire, body, length_bytes}
use wust_socket.Frames.Data.{all_frames, all_frames_by}
use wust_socket.Frames.Data.Message.{send_list, frames_from}
use wust_socket.Frames.Data.Fragments.{all_frames_by-send_list}
use wust_socket.Frames.Data.Parts.{fragments}
use wust_socket.Frames.Decode.{next_frame, push_bytes, loop, step, on_header1, on_mask, on_payload}
use wust_socket.Frames.Decode
use wust_socket.Frames.Decode.Parse.{
  FrameDecoder, DecodeState, FrameState, FrameParseError, parse_header1, parse_header2,
  parse_payload, pop_n,
}
use wust_socket.Frames.Decode.Progress.{next_frame_total}
use wust_socket.Frames.Decode.Frames.{
  IsWellFormed, new-IsSound, push_bytes-IsSound, next_frame-IsWellFormed,
}
use wust_socket.Frames.Decode.Stream.{Drained, drain}
use wust_socket.Frames.Decode.Stream.Reads.{Agree, feed, feed-Agree}
use wust_socket.Frames.RoundTrip.{IsReady, next_frame-wire}
use wust_socket.Frames.RoundTrip.Steps.{IsAllowed, decoded, in_frame, context}
use wust_socket.Frames.Delivery.{Gives, IsReady-push, message_frames, all_frames-Gives}
use wust_socket.Examples.Setup.{
  list_sender, key, keys, hi, hi_frame, text_header, start, start-IsReady, all_frames-ok,
}

-- A client's frame, byte by byte.
hi-wire : wire Role.client text_header key hi ≡ hi_frame
unfolding wire length_bytes body mask mask_lin mask_from
hi-wire = refl

abbrev hi_read : FrameDecoder
hi_read = in_frame DecodeState.header1 false (context text_header 2 key) []

hi-decoded :
    next_frame Role.server (push_bytes start hi_frame)
    ≡ some (ok (some (FrameState.complete (decoded text_header hi))), hi_read)
unfolding next_frame loop step parse_header1 parse_header2 parse_payload push_bytes Decode.new mask
    mask_lin mask_from pop_n try_from
hi-decoded = refl

text-IsAllowed : IsAllowed false text_header 2
text-IsAllowed = record { agreed = λ e. cc; whole = λ e. cc; plain = λ e. cc; short = λ e. cc }

feed-Agree_example :
    (x y : Drained) × (feed Role.server start
        (0x81 ∷ [])
        ((0x82 ∷ 1 ∷ 2 ∷ []) ∷ (3 ∷ 4 ∷ 73 ∷ []) ∷ (107 ∷ []) ∷ [])
      ≡ some x)
    × (drain Role.server (push_bytes start hi_frame) ≡ some y)
    × Agree x y
feed-Agree_example =
    feed-Agree Role.server start (0x81 ∷ [])
      ((0x82 ∷ 1 ∷ 2 ∷ []) ∷ (3 ∷ 4 ∷ 73 ∷ []) ∷ (107 ∷ []) ∷ [])

next_frame_total_example :
    (x : Result FrameParseError (Option FrameState) × FrameDecoder) × (next_frame Role.server
        (push_bytes start hi_frame)
      ≡ some x)
next_frame_total_example = next_frame_total Role.server (push_bytes start hi_frame)

all_frames-Gives_example :
    (bytes : List (List ℕ)) × (parts : List (List ℕ)) × ((all_frames list_sender Role.client
        Opcode.text hi false keys []).1
      ≡ bytes)
    × (concat parts ≡ hi)
    × All (λ x. length x ≤ max_frame_payload) parts
    × (is_empty parts ≡ false)
    × Gives Role.server
        (push_bytes start (concat bytes))
        false
        (message_frames Opcode.text false true parts)
all_frames-Gives_example =
    all_frames-Gives list_sender Role.server false Opcode.text false keys hi [] start start-IsReady
      refl (λ e. cc) tt all_frames-ok

next_frame-wire_example :
    (d' : FrameDecoder) × (next_frame Role.server
        (push_bytes start (wire Role.client text_header key hi ++ 0x89 ∷ []))
      ≡ some (ok (some (FrameState.complete (decoded text_header hi))), d'))
    × IsReady d' false (0x89 ∷ [])
next_frame-wire_example =
    next_frame-wire Role.server false text_header key hi (0x89 ∷ [])
      (push_bytes start (wire Role.client text_header key hi ++ 0x89 ∷ []))
      (IsReady-push start-IsReady (wire Role.client text_header key hi ++ 0x89 ∷ [])) text-IsAllowed
      (omega arith) (λ e. cc)

next_frame-IsWellFormed_example : IsWellFormed (decoded text_header hi)
next_frame-IsWellFormed_example =
    next_frame-IsWellFormed Role.server (push_bytes start hi_frame) hi_read (decoded text_header hi)
      (push_bytes-IsSound hi_frame (new-IsSound false)) hi-decoded

-- Five bytes in chunks of two.
all_frames_by-send_list_example :
    let payload : List ℕ = 1 ∷ 2 ∷ 3 ∷ 4 ∷ 5 ∷ [] in
    all_frames_by list_sender 2 Role.server Opcode.bin payload false keys []
    ≡ send_list list_sender
        (frames_from Role.server Opcode.bin false keys true 0 true (fragments 2 payload))
        []
all_frames_by-send_list_example =
    all_frames_by-send_list list_sender Role.server Opcode.bin false keys 2 (1 ∷ 2 ∷ 3 ∷ 4 ∷ 5 ∷ [])
      [] (omega arith) (omega arith)
