-- ===== src/Channel.antt =====
-- What the program uses of the channels and of the deflate streams that it does not implement.
use wust_socket.Prelude.{
  ℕ, ◌≡◌, sym, ap, ◌∙◌, arith, List, [], ◌∷◌, ◌++◌, Result, ok, err, Bool, length, length-append,
  append_cancel, Result-cases, inl, inr,
}

-- `tokio::sync::mpsc::Sender`. The state is that of the channel with all that goes on beside the
-- sender. A send hands the value over, or gives it back where the receiver is gone. (`send` waits
-- while the channel is full; the wait is part of the step.)
pub record Sender (A : Type 0) : Type 1 where
  pub State : Type 0
  pub send : A → State → Result A (Unit {0}) × State
  -- What has been handed over, in order.
  pub sent : State → List A
  pub send_ok :
      (a : A) (s : State) (u : Unit {0})
      → (send a s).0 ≡ ok u
      → sent (send a s).1 ≡ sent s ++ a ∷ []
  pub send_err : (a b : A) (s : State) → (send a s).0 ≡ err b → sent (send a s).1 ≡ sent s

-- `flate2::write::DeflateEncoder<Vec<u8>>`, whose results the program drops.
pub record Deflater : Type 1 where
  pub Encoder : Type 0
  -- `reset(vec![])`
  pub reset : Encoder → Encoder
  pub write_all : List ℕ → Encoder → Encoder
  pub flush : Encoder → Encoder
  pub get_ref : Encoder → List ℕ
  -- Output is only appended, so a slice from an earlier length on is in range.
  pub write_all_appends :
      (bytes : List ℕ) (z : Encoder)
      → (more : List ℕ) × (get_ref (write_all bytes z) ≡ get_ref z ++ more)
  pub flush_appends : (z : Encoder) → (more : List ℕ) × (get_ref (flush z) ≡ get_ref z ++ more)

-- `flate2::write::DeflateDecoder<Vec<u8>>`. Writing and flushing may fail.
pub record Inflater : Type 1 where
  pub Decoder : Type 0
  -- `reset(vec![])`
  pub reset : Decoder → Decoder
  pub write_all : List ℕ → Decoder → Bool × Decoder
  pub flush : Decoder → Bool × Decoder
  pub get_ref : Decoder → List ℕ
  -- Output is only appended, so a slice from an earlier length on is in range.
  pub write_all_appends :
      (bytes : List ℕ) (z : Decoder)
      → (more : List ℕ) × (get_ref (write_all bytes z).1 ≡ get_ref z ++ more)
  pub flush_appends : (z : Decoder) → (more : List ℕ) × (get_ref (flush z).1 ≡ get_ref z ++ more)

singleton_inj : (x y : List ℕ) → x ∷ [] ≡ y ∷ [] → x ≡ y
singleton_inj x y e = cc

-- If one more value was handed over, it is the one that was sent.
pub send-handed :
    (tx : Sender (List ℕ)) (b f : List ℕ) (s : tx.State)
    → tx.sent (tx.send b s).1 ≡ tx.sent s ++ f ∷ []
    → b ≡ f
send-handed tx b f s handed = elim (Result-cases (tx.send b s).0) [
  | inl (u, e) ↦
      singleton_inj b f
        (append_cancel (tx.sent s) (b ∷ []) (f ∷ []) (sym (tx.send_ok b s u e) ∙ handed))
  | inr (x, e) ↦
      let same = sym (tx.send_err b x s e) ∙ handed in
      absurd (omega (arith, ap length same, length-append (tx.sent s) (f ∷ [])))
]
