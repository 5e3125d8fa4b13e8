-- ===== src/Frames/Data/Message.antt =====
-- A message as a sequence of frames: what `all_frames` hands to the channel, for any chunk size.
use wust_socket.Prelude.{
  Result-cases, ℕ, suc, ◌+◌, ◌-◌, ◌^◌, ◌<◌, ◌≡◌, inl, inr, refl, ap, ◌∙◌, List, [], ◌∷◌, ◌++◌, Bool,
  true, false, ◌&&◌, ◌==◌, length, is_empty, Result, ok, err, arith, append_assoc, All, Chunks,
}
use wust_socket.Channel.{Sender}
use wust_socket.Role.{Role}
use wust_socket.Protocol.Mask.{MaskKey}
use wust_socket.Frames.Opcode.{Opcode}
use wust_socket.Frames.Wire.{wire}
use wust_socket.Frames.Data.{send_chunks}
use wust_socket.Frames.Data.Layout.{data_header, single_frame-wire}

pub is_empty-snoc : {A : Type 0} (xs : List A) (x : A) → is_empty (xs ++ x ∷ []) ≡ false
is_empty-snoc [] x = refl
is_empty-snoc (y ∷ ys) x = refl

-- Whether the fragment behind these is still the first.
abbrev pub still_first : Bool → List (List ℕ) → Bool
still_first first [] = first
still_first first (x ∷ xs) = false

still_first-false : (xs : List (List ℕ)) → still_first false xs ≡ false
still_first-false [] = refl
still_first-false (x ∷ xs) = refl

module _ (r : Role) (opcode : Opcode) (compressed : Bool) (keys : ℕ → MaskKey) where
  -- The frames for the fragments from number `i` on. The last one is final if `closing`.
  unfoldable pub frames_from : Bool → ℕ → Bool → List (List ℕ) → List (List ℕ)
  frames_from closing i first [] = []
  frames_from closing i first (x ∷ xs) =
      wire r (data_header opcode first (closing && is_empty xs) compressed) (keys i) x
      ∷ frames_from closing (i + 1) false xs

  pub frames_from-snoc :
      (i : ℕ) (first : Bool) (xs : List (List ℕ)) (x : List ℕ)
      → frames_from true i first (xs ++ x ∷ [])
        ≡ frames_from false i first xs
          ++ wire r
              (data_header opcode (still_first first xs) true compressed)
              (keys (i + length xs))
              x
            ∷ []
  unfolding frames_from
  frames_from-snoc i first [] x =
      let e : i ≡ i + 0 = omega arith in
      ap (λ j. wire r (data_header opcode first true compressed) (keys j) x ∷ []) e
  frames_from-snoc i first (y ∷ ys) x =
      let e : i + 1 + length ys ≡ i + suc (length ys) = omega arith in
      rw (is_empty-snoc ys x) (
        ap (◌∷◌ (wire r (data_header opcode first false compressed) (keys i) y))
          (frames_from-snoc (i + 1) false ys x ∙ rw (still_first-false ys, e)))

-- `?` on a result of the channel.
abbrev pub is_ok : {E A : Type 0} → Result E A → Bool
is_ok (ok a) = true
is_ok (err e) = false

-- A result of the loop, without `first`.
abbrev pub without_flag : Result (List ℕ) Bool → Result (List ℕ) (Unit {0})
without_flag (ok first) = ok tt
without_flag (err e) = err e

module _ (tx : Sender (List ℕ)) where
  open tx use {State, send, sent, send_ok, send_err}

  -- Frames sent one after the other, until a send fails; its error is the result.
  unfoldable pub send_list : List (List ℕ) → State → Result (List ℕ) (Unit {0}) × State
  send_list [] s = (ok tt, s)
  send_list (b ∷ frames) s =
      let (result, s') = send b s in
      elim result [ err e ↦ (err e, s') | ok _ ↦ send_list frames s' ]

  abbrev ended : Result (List ℕ) (Unit {0}) → State → Result (List ℕ) (Unit {0}) × State
  ended x s = elim x [ err e ↦ (err e, s) | ok _ ↦ (ok tt, s) ]

  same_result : (x : Result (List ℕ) (Unit {0})) (s : State) → ended x s ≡ (x, s)
  same_result (ok u) s = refl
  same_result (err e) s = refl

  send_list-one : (b : List ℕ) (s : State) → send_list (b ∷ []) s ≡ send b s
  unfolding send_list
  send_list-one b s = same_result (send b s).0 (send b s).1

  pub send_list-snoc-ok :
      (frames : List (List ℕ)) (b : List ℕ) (s s' : State) (u : Unit {0})
      → send_list frames s ≡ (ok u, s')
      → send_list (frames ++ b ∷ []) s ≡ send b s'
  unfolding send_list
  send_list-snoc-ok [] b s s' u h =
      let same : s ≡ s' = ap (λ x. x.1) h in send_list-one b s ∙ ap (send b) same
  send_list-snoc-ok (x ∷ frames) b s s' u h = elim (Result-cases (send x s).0) [
    | inl (v, e) ↦
        rw (e, send_list) (send_list-snoc-ok frames b (send x s).1 s' u (rw (e, send_list) at h))
    | inr (y, e) ↦ absurd (ground arith)
  ]

  -- After an error nothing more is sent.
  pub send_list-more-err :
      (frames more : List (List ℕ)) (s s' : State) (x : List ℕ)
      → send_list frames s ≡ (err x, s')
      → send_list (frames ++ more) s ≡ (err x, s')
  unfolding send_list
  send_list-more-err [] more s s' x h = absurd (ground arith)
  send_list-more-err (y ∷ frames) more s s' x h = elim (Result-cases (send y s).0) [
    | inl (v, e) ↦
        rw (e, send_list)
          (send_list-more-err frames more (send y s).1 s' x (rw (e, send_list) at h))
    | inr (z, e) ↦ rw (e, send_list) (rw (e, send_list) at h)
  ]

  -- What has been sent after a run: all the frames, or, after an error, those before it.
  pub record Sends (s s' : State) (frames : List (List ℕ)) (all : Bool) : Type 0 where
    pub unsent : List (List ℕ)
    pub in_order : sent s' ++ unsent ≡ sent s ++ frames
    pub nothing_left : all ≡ true → unsent ≡ []

module _ (tx : Sender (List ℕ)) (r : Role) (opcode : Opcode) (compressed : Bool)
    (keys : ℕ → MaskKey) where
  open tx use {State, send, sent, send_ok, send_err}

  -- One frame is sent, and then what follows; or the send fails, and nothing does.
  Sends-cons :
      (s s' : State) (b : List ℕ) (frames : List (List ℕ)) (u : Unit {0}) (all : Bool)
      → (send b s).0 ≡ ok u
      → Sends tx (send b s).1 s' frames all
      → Sends tx s s' (b ∷ frames) all
  Sends-cons s s' b frames u all e rest = record {
    unsent = rest.unsent;
    in_order =
        rest.in_order
        ∙ ap (λ t. t ++ frames) (send_ok b s u e)
        ∙ append_assoc (sent s) (b ∷ []) frames;
    nothing_left = rest.nothing_left;
  }

  Sends-err :
      (s : State) (b x : List ℕ) (frames : List (List ℕ))
      → (send b s).0 ≡ err x
      → Sends tx s (send b s).1 (b ∷ frames) false
  Sends-err s b x frames e = record {
    unsent = b ∷ frames;
    in_order = ap (λ t. t ++ (b ∷ frames)) (send_err b x s e);
    nothing_left = λ k. cc;
  }

  Sends-nil : (s : State) → Sends tx s s [] true
  Sends-nil s = record { unsent = []; in_order = refl; nothing_left = λ k. refl }

  pub send_list-Sends :
      (frames : List (List ℕ)) (s : State)
      → Sends tx s (send_list tx frames s).1 frames (is_ok (send_list tx frames s).0)
  unfolding send_list
  send_list-Sends [] s = Sends-nil s
  send_list-Sends (b ∷ frames) s = elim (Result-cases (send b s).0) [
    | inl (u, e) ↦
        rw (e, send_list) (Sends-cons s _ b frames u _ e (send_list-Sends frames (send b s).1))
    | inr (x, e) ↦ rw (e, send_list) (Sends-err s b x frames e)
  ]

  -- The index tells the last chunk.
  last_test :
      (c : Chunks ℕ) (i : ℕ) (xs : List (List ℕ))
      → length c.chunked ≡ i + suc (length xs)
      → (is_empty c.remainder && i == length c.chunked - 1) ≡ (is_empty c.remainder && is_empty xs)
  last_test c i [] n = ground arith
  last_test c i (x ∷ xs) n = ground arith

  -- One round of the loop, with the frame that it writes.
  send_chunks-cons :
      (c : Chunks ℕ) (i : ℕ) (x : List ℕ) (xs : List (List ℕ)) (first : Bool) (s : State)
      → length c.chunked ≡ i + suc (length xs)
      → length x < 2 ^ 64
      → let b =
          wire r
            (data_header opcode first (is_empty c.remainder && is_empty xs) compressed)
            (keys i)
            x in
        ((u : Unit {0})
          → (send b s).0 ≡ ok u
          → send_chunks tx r opcode compressed keys c i (x ∷ xs) first s
            ≡ send_chunks tx r opcode compressed keys c (i + 1) xs false (send b s).1)
        × ((e : List ℕ)
            → (send b s).0 ≡ err e
            → send_chunks tx r opcode compressed keys c i (x ∷ xs) first s ≡ (err e, (send b s).1))
  unfolding send_chunks
  send_chunks-cons c i x xs first s n h =
      let t = last_test c i xs n in
      let w =
        single_frame-wire r opcode x first (is_empty c.remainder && is_empty xs) compressed (keys i)
          h in
      (λ u e. ground (arith, t, w, e), λ k e. ground (arith, t, w, e))

  -- The loop sends the frames of the chunks until a send fails, whose error it returns.
  pub send_chunks-send_list :
      (c : Chunks ℕ) (i : ℕ) (chunks : List (List ℕ)) (first : Bool) (s : State)
      → length c.chunked ≡ i + length chunks
      → All (λ x. length x < 2 ^ 64) chunks
      → let out = send_chunks tx r opcode compressed keys c i chunks first s in
        (send_list tx (frames_from r opcode compressed keys (is_empty c.remainder) i first chunks) s
          ≡ (without_flag out.0, out.1))
        × ((f : Bool) → out.0 ≡ ok f → f ≡ still_first first chunks)
  unfolding frames_from send_list
  send_chunks-send_list c i [] first s n h = unfold send_chunks in (refl, λ f e. cc)
  send_chunks-send_list c i (x ∷ xs) first s n h =
      let b =
        wire r (data_header opcode first (is_empty c.remainder && is_empty xs) compressed) (keys i)
          x in
      let (goes_on, stops) = send_chunks-cons c i x xs first s n h.0 in
      elim (Result-cases (send b s).0) [
        | inl (u, e) ↦
            let (rest, f) =
              send_chunks-send_list c (i + 1) xs false (send b s).1 (omega arith) h.1 in
            rw (goes_on u e, e, send_list) (rest, λ g k. f g k ∙ still_first-false xs)
        | inr (x', e) ↦ rw (stops x' e, e, send_list) (refl, λ g k. cc)
      ]
