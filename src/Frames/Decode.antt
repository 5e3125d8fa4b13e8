-- ===== src/Frames/Decode.antt =====
-- src/frames/decode.rs: `FrameDecoder<P>`, a state machine over a buffer of received bytes. The role
-- `P` is an argument of the functions that ask for it. A method returns its value with the decoder
-- that it leaves, on the error paths too.
pub mod Parse
pub mod Progress
pub mod Resume
pub mod Stream
pub mod Frames
pub use Parse.*
use wust_socket.Prelude.{
  ℕ, zero, suc, ◌++◌, Bool, List, [], ◌∷◌, Option, none, some, Result, ok, err, false,
}
use wust_socket.Role.{Role}
use wust_socket.Frames.Opcode.{Opcode}

-- `FrameDecoder::new`
unfoldable pub new : Bool → FrameDecoder
new compressed = record {
  buf = [];
  state = DecodeState.header1;
  ctx = record {
    is_fin = false;
    opcode = Opcode.cont;
    payload_len = 0;
    mask_key = record { k0 = 0; k1 = 0; k2 = 0; k3 = 0 };
    compressed = false;
  };
  compressed = compressed;
}

unfoldable pub push_bytes : FrameDecoder → List ℕ → FrameDecoder
push_bytes d bytes = record d { buf = d.buf ++ bytes }

-- One round of the loop in `next_frame`: it goes on with a new state, or returns.
pub data Step : Type 0 where
  continues : FrameDecoder → Step
  returns : Result FrameParseError (Option FrameState) → FrameDecoder → Step

-- `self.state = next_state`, or the `?` on an error.
unfoldable pub to_state : Result FrameParseError DecodeState × FrameDecoder → Step
to_state (ok s, d) = continues (record d { state = s })
to_state (err e, d) = returns (err e) d

-- The same where the parser may want more bytes.
unfoldable pub to_state_or_wait : Result FrameParseError (Option DecodeState) × FrameDecoder → Step
to_state_or_wait (ok (some s), d) = continues (record d { state = s })
to_state_or_wait (ok none, d) = returns (ok (some FrameState.incomplete)) d
to_state_or_wait (err e, d) = returns (err e) d

unfoldable pub on_header1 : FrameDecoder → List ℕ → Step
unfolding to_state
on_header1 d [] = returns (ok none) d
on_header1 d (b ∷ rest) = to_state (parse_header1 (record d { buf = rest }) b)

unfoldable pub on_mask : Option (List ℕ) × FrameDecoder → Step
on_mask (some x, d) =
    continues
      (record d { ctx = record (d.ctx) { mask_key = key_of x }; state = DecodeState.payload })
on_mask (none, d) = returns (ok (some FrameState.incomplete)) d

unfoldable pub on_payload : Result FrameParseError (Option (List ℕ)) × FrameDecoder → Step
on_payload (ok (some bytes), d) =
    let frame : DecodedFrame = record {
      opcode = d.ctx.opcode;
      payload = bytes;
      is_fin = d.ctx.is_fin;
      compressed = d.ctx.compressed;
    } in
    returns (ok (some (FrameState.complete frame))) (record d { state = DecodeState.header1 })
on_payload (ok none, d) = returns (ok (some FrameState.incomplete)) d
on_payload (err e, d) = returns (err e) d

-- The `match self.state`.
unfoldable pub dispatch : Role → DecodeState → FrameDecoder → Step
unfolding on_header1 to_state_or_wait on_mask on_payload
dispatch r DecodeState.header1 d = on_header1 d d.buf
dispatch r DecodeState.header2 d = to_state_or_wait (parse_header2 r d)
dispatch r DecodeState.extended_len d = to_state_or_wait (parse_extended_len r d)
dispatch r DecodeState.mask d = on_mask (pop_n 4 d)
dispatch r DecodeState.payload d = on_payload (parse_payload r d)

unfoldable pub step : Role → FrameDecoder → Step
unfolding dispatch
step r d = dispatch r d.state d

-- The loop, for a number of rounds; `none` means that they did not suffice.
unfoldable pub loop :
    Role → ℕ → FrameDecoder → Option (Result FrameParseError (Option FrameState) × FrameDecoder)
loop r zero d = none
loop r (suc rounds) d = elim (step r d) [
  | continues d' ↦ loop r rounds d'
  | returns x d' ↦ some (x, d')
]

-- Each round moves on among the five states, so five rounds always suffice.
unfoldable pub next_frame :
    Role → FrameDecoder → Option (Result FrameParseError (Option FrameState) × FrameDecoder)
next_frame r d = loop r 5 d
