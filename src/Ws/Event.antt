-- ===== src/Ws/Event.antt =====
-- src/ws/event.rs: the events of a connection, and a message while its frames arrive. The inflate
-- stream is a parameter, `Inflater`.
use wust_socket.Prelude.{
  ℕ, List, [], ◌∷◌, ◌++◌, Option, none, some, Bool, true, false, not, if◌then◌else◌, length, drop,
  Result, ok, err,
}
use wust_socket.Prelude.Utf8.{is_utf8}
use wust_socket.Channel.{Inflater}

-- `Text`, bytes that are valid UTF-8.
pub record Text : Type 0 where
  pub inner : List ℕ

pub data Event : Type 0 where
  pong : ℕ → Event
  text : Text → Event
  binary : List ℕ → Event
  closed : Event

-- `Event::len`
abbrev pub event_len : Event → ℕ
event_len (Event.text s) = length s.inner
event_len (Event.binary b) = length b
event_len _ = 0

pub data PartialMessage : Type 0 where
  text binary : List ℕ → PartialMessage

pub data MessageError : Type 0 where
  utf8 deflate : MessageError

abbrev pub push_bytes : PartialMessage → List ℕ → PartialMessage
push_bytes (PartialMessage.text v) bytes = PartialMessage.text (v ++ bytes)
push_bytes (PartialMessage.binary v) bytes = PartialMessage.binary (v ++ bytes)

-- The bytes so far; `len` is their number.
abbrev pub contents : PartialMessage → List ℕ
contents (PartialMessage.text v) = v
contents (PartialMessage.binary v) = v

abbrev pub partial_len : PartialMessage → ℕ
partial_len p = length (contents p)

abbrev pub is_text : PartialMessage → Bool
is_text (PartialMessage.text v) = true
is_text (PartialMessage.binary v) = false

-- The end of `into_message`: text has to be valid UTF-8.
unfoldable pub to_event : Bool → List ℕ → Result MessageError Event
to_event true bytes =
    if is_utf8 bytes then ok (Event.text (record { inner = bytes })) else err MessageError.utf8
to_event false bytes = ok (Event.binary bytes)

module _ (z : Inflater) where
  open z use {Decoder, reset, write_all, flush, get_ref}

  -- `write_all(..).is_err() || flush().is_err()`, and then the output from `end` on.
  unfoldable pub inflate : ℕ → List ℕ → Decoder → Option (List ℕ) × Decoder
  inflate end bytes d =
      let (written, d1) = write_all bytes d in
      let (flushed, d2) = flush d1 in
      if not written
      then (none, d1)
      else if not flushed
      then (none, d2)
      else (some (drop end (get_ref d2)), d2)

  unfoldable pub inflate_message : Bool → List ℕ → Decoder → Option (List ℕ) × Decoder
  unfolding inflate
  inflate_message use_context bytes d =
      if use_context
      then inflate (length (get_ref d)) bytes d
      else inflate 0 (bytes ++ 0 ∷ 0 ∷ 0xFF ∷ 0xFF ∷ []) (reset d)

  unfoldable pub after_inflate :
      Bool → Option (List ℕ) × Decoder → Result MessageError Event × Option Decoder
  unfolding to_event
  after_inflate as_text (none, d) = (err MessageError.deflate, some d)
  after_inflate as_text (some bytes, d) = (to_event as_text bytes, some d)

  unfoldable pub into_message :
      PartialMessage → Option Decoder → Bool → Result MessageError Event × Option Decoder
  unfolding after_inflate inflate_message
  into_message p none use_context = (to_event (is_text p) (contents p), none)
  into_message p (some d) use_context =
      after_inflate (is_text p) (inflate_message use_context (contents p) d)
