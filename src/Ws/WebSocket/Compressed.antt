-- ===== src/Ws/WebSocket/Compressed.antt =====
-- Messages on a connection with compression: what `send_data` deflates, the other end inflates. How
-- the two streams of flate2 belong together is a parameter.
use wust_socket.Prelude.{
  ℕ, ◌≤◌, ◌≡◌, refl, sym, ap, ◌∙◌, List, [], ◌∷◌, ◌++◌, none, some, Bool, true, false, ok, length,
  drop, drop-length, concat, Option, Result,
}
use mathlib.Core.Path.{subst}
use wust_socket.Channel.{Sender, Deflater, Inflater}
use wust_socket.Role.{Role, peer}
use wust_socket.Protocol.Mask.{MaskKey}
use wust_socket.Frames.Limits.{max_message_size}
use wust_socket.Frames.Data.{data_frames, deflate}
use wust_socket.Frames.RoundTrip.{IsReady}
use wust_socket.Ws.Event.{into_message, inflate, inflate_message, after_inflate}
use wust_socket.Ws.FrameHandler.{Action}
use wust_socket.Ws.Reader.{Reader}
use wust_socket.Ws.WebSocket.{WebSocket}
use wust_socket.Ws.Reader.Pieces.{Handles}
use wust_socket.Ws.Reader.Delivery.{all_frames-Handles}
use wust_socket.Ws.WebSocket.{Message, send_data}
use wust_socket.Ws.Event.{push_bytes as extend}
use wust_socket.Ws.WebSocket.Plain.{
  opcode_of, content, event_of, IsProper, empty_message, starts-empty_message, to_event-message,
  extend-empty_message,
}

-- The encoder and the decoder of one direction, as raw DEFLATE streams.
pub record Codec (zd : Deflater) (zi : Inflater) : Type 1 where
  -- The decoder has read all that the encoder has put out, and nothing else.
  pub Linked : zd.Encoder → zi.Decoder → Type 0
  -- The decoder has met no error, so that `reset` succeeds. It may have read a part of a block.
  pub Usable : zi.Decoder → Type 0
  pub linked_usable : (e : zd.Encoder) (d : zi.Decoder) → Linked e d → Usable d
  -- `reset(vec![])` starts a new stream with nothing put out.
  pub fresh :
      (e : zd.Encoder) (d : zi.Decoder)
      → Usable d
      → Linked (zd.reset e) (zi.reset d) × (zi.get_ref (zi.reset d) ≡ [])
  pub reset_encoder : (e : zd.Encoder) → zd.get_ref (zd.reset e) ≡ []
  -- What a flushed encoder has put out is inflated to what was put in.
  pub inflates :
      (bytes : List ℕ) (e : zd.Encoder) (d : zi.Decoder)
      → Linked e d
      → let e' = zd.flush (zd.flush (zd.write_all bytes e)) in
        let out = drop (length (zd.get_ref e)) (zd.get_ref e') in
        let d1 = zi.write_all out d in
        let d2 = zi.flush d1.1 in
        (d1.0 ≡ true) × (d2.0 ≡ true) × (zi.get_ref d2.1 ≡ zi.get_ref d ++ bytes) × Linked e' d2.1
  -- `00 00 FF FF` behind it begins a stored block whose header is not complete: it puts nothing out
  -- and is no error yet, but the decoder is no longer in step with the encoder.
  pub inflates_padded :
      (bytes : List ℕ) (e : zd.Encoder) (d : zi.Decoder)
      → Linked e d
      → let e' = zd.flush (zd.flush (zd.write_all bytes e)) in
        let out = drop (length (zd.get_ref e)) (zd.get_ref e') in
        let d1 = zi.write_all (out ++ 0 ∷ 0 ∷ 0xFF ∷ 0xFF ∷ []) d in
        let d2 = zi.flush d1.1 in
        (d1.0 ≡ true) × (d2.0 ≡ true) × (zi.get_ref d2.1 ≡ zi.get_ref d ++ bytes) × Usable d2.1

inflate-some :
    (zi : Inflater) (end : ℕ) (bytes before input : List ℕ) (d : zi.Decoder)
    → let d1 = zi.write_all input d in
      let d2 = zi.flush d1.1 in
      d1.0 ≡ true
      → d2.0 ≡ true
      → zi.get_ref d2.1 ≡ before ++ bytes
      → end ≡ length before
      → inflate zi end input d ≡ (some bytes, d2.1)
unfolding inflate
inflate-some zi end bytes before input d wrote flushed out e =
    let dropped : drop end (zi.get_ref (zi.flush (zi.write_all input d).1).1) ≡ bytes =
      ap (drop end) out ∙ ap (λ n. drop n (before ++ bytes)) e ∙ drop-length before bytes in
    rw (wrote, flushed, dropped) refl

module _ (tx : Sender (List ℕ)) (zd : Deflater) (zi : Inflater) (codec : Codec zd zi) where
  open codec use {Linked, Usable}

  -- How the two streams stand between two messages: in step if they are kept; if each message
  -- begins with `reset`, it only has to succeed.
  abbrev pub InPhase : Bool → zd.Encoder → zi.Decoder → Type 0
  InPhase true e d = Linked e d
  InPhase false e d = Usable d

  pub Linked-InPhase :
      (use_context : Bool) (e : zd.Encoder) (d : zi.Decoder) → Linked e d → InPhase use_context e d
  Linked-InPhase true e d linked = linked
  Linked-InPhase false e d linked = codec.linked_usable e d linked

  -- What is deflated is inflated to the same bytes, and the streams are ready for the next message.
  inflate_message-deflate :
      (use_context : Bool) (bytes : List ℕ) (e : zd.Encoder) (d : zi.Decoder)
      → InPhase use_context e d
      → let x = deflate tx zd use_context bytes e in
        (d' : zi.Decoder) × (inflate_message zi use_context x.0 d ≡ (some bytes, d'))
        × InPhase use_context x.1 d'
  unfolding deflate inflate_message
  inflate_message-deflate true bytes e d linked =
      let (wrote, flushed, out, kept) = codec.inflates bytes e d linked in
      let d2 = (zi.flush (zi.write_all _ d).1).1 in
      (
        d2,
        inflate-some zi (length (zi.get_ref d)) bytes (zi.get_ref d) _ d wrote flushed out refl,
        kept,
      )
  inflate_message-deflate false bytes e d usable =
      let (linked, nothing) = codec.fresh e d usable in
      let (wrote, flushed, out, kept) =
        codec.inflates_padded bytes (zd.reset e) (zi.reset d) linked in
      let more = zd.get_ref (zd.flush (zd.flush (zd.write_all bytes (zd.reset e)))) in
      let d2 = (zi.flush (zi.write_all _ (zi.reset d)).1).1 in
      subst
        (λ input.
          (d' : zi.Decoder) × (inflate zi 0 (input ++ 0 ∷ 0 ∷ 0xFF ∷ 0xFF ∷ []) (zi.reset d)
            ≡ (some bytes, d'))
          × Usable d')
        (ap (λ l. drop (length l) more) (codec.reset_encoder e))
        (
          d2,
          inflate-some zi 0 bytes (zi.get_ref (zi.reset d)) _ (zi.reset d) wrote flushed out
              (ap length (sym nothing)),
          kept,
        )

  -- The bytes that a successful send with compression has sent are handled, at the other end, as that
  -- message and nothing else, and the streams are ready for the next one.
  pub send_data-inflated :
      (r : Role) (use_context : Bool) (reader_keys : ℕ → MaskKey) (keys : ℕ → ℕ → MaskKey)
      (m : Message) (ws : WebSocket tx zd) (s : Reader zi r use_context reader_keys)
      (e : zd.Encoder) (d : zi.Decoder)
      → ws.deflater ≡ some e
      → ws.use_context ≡ use_context
      → s.conn.inflater ≡ some d
      → InPhase use_context e d
      → IsReady s.decoder true []
      → s.conn.partial_msg ≡ none
      → IsProper m
      → length (deflate tx zd use_context (content m) e).0 ≤ max_message_size
      → (u : Unit {0}) → (send_data tx zd (peer r) keys (content m) (opcode_of m) ws).0 ≡ ok u
      → let ws' = (send_data tx zd (peer r) keys (content m) (opcode_of m) ws).1 in
        (bytes : List (List ℕ)) × (s' : Reader zi r use_context reader_keys) × (e' : zd.Encoder)
        × (d' : zi.Decoder) × (tx.sent ws'.data_tx ≡ tx.sent ws.data_tx ++ bytes)
        × Handles zi r use_context reader_keys s (concat bytes) s'
        × (s'.actions ≡ s.actions ++ Action.event (event_of m) ∷ [])
        × (ws'.deflater ≡ some e')
        × (s'.conn.inflater ≡ some d')
        × InPhase use_context e' d'
        × IsReady s'.decoder true []
        × (s'.conn.partial_msg ≡ none)
  unfolding send_data data_frames
  send_data-inflated r use_context reader_keys keys m ws s e d zipped kept unzips linked ready idle
        proper fits u sent =
      let op = opcode_of m in
      let x = deflate tx zd use_context (content m) e in
      let (d', inflated, linked') = inflate_message-deflate use_context (content m) e d linked in
      let p = extend (empty_message m) x.0 in
      let (whole, as_text) = extend-empty_message m x.0 in
      let event : into_message zi p s.conn.inflater use_context ≡ (ok (event_of m), some d') =
        ap (λ i. into_message zi p i use_context) unzips
        ∙ unfold into_message after_inflate in
          rw (whole, as_text, inflated) (ap (λ y. (y, some d')) (to_event-message m proper)) in
      let sends : Option zd.Encoder
          → Bool
          → Result (List ℕ) (Unit {0}) × Option zd.Encoder × tx.State =
        λ i b. data_frames tx zd (peer r) (content m) op i b (keys ws.calls) ws.data_tx in
      let same : sends ws.deflater ws.use_context ≡ sends (some e) use_context = cc in
      let (bytes, s', in_order, handles, conn, actions, next) =
        all_frames-Handles zi r use_context reader_keys tx true op true (keys ws.calls) x.0
          ws.data_tx s (empty_message m) (event_of m) (some d') ready (starts-empty_message m)
          (λ k. refl) idle fits event u (ap (λ y. y.0) (sym same) ∙ sent) in
      (
        bytes,
        s',
        x.1,
        d',
        ap (λ y. tx.sent y.2) same ∙ in_order,
        handles,
        actions,
        ap (λ y. y.1) same,
        ap (λ c. c.inflater) conn,
        linked',
        next,
        ap (λ c. c.partial_msg) conn,
      )
