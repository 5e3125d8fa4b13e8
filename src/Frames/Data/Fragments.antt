-- ===== src/Frames/Data/Fragments.antt =====
-- The fragments of a message, and that `all_frames` sends exactly the frames for them.
use wust_socket.Prelude.{
  ℕ, ◌^◌, ◌<◌, ◌≡◌, inl, inr, refl, sym, ap, ◌∙◌, List, [], ◌∷◌, ◌++◌, Bool, true, false,
  if◌then◌else◌, length, is_empty, Result, ok, err, arith, append-nil, All, Chunks, as_chunks,
  as_chunks-parts, concat, Bool-cases, Result-cases,
}
use native.Mathlib.Nat.{zero-add}
use mathlib.Core.Path.{subst}
use wust_socket.Channel.{Sender}
use wust_socket.Role.{Role}
use wust_socket.Protocol.Mask.{MaskKey}
use wust_socket.Frames.Opcode.{Opcode}
use wust_socket.Frames.Wire.{wire}
use wust_socket.Frames.Data.{send_chunks, send_remainder, all_frames_by}
use wust_socket.Frames.Data.Layout.{data_header, single_frame-wire}
use wust_socket.Frames.Data.Message.{
  frames_from, frames_from-snoc, still_first, is_ok, Sends, send_list, send_list-snoc-ok,
  send_list-more-err, send_list-Sends, send_chunks-send_list, without_flag,
}
use wust_socket.Frames.Data.Parts.{has_rest, fragments, All-mono, is_empty-eq, no_rest}

module _ (tx : Sender (List ℕ)) (r : Role) (opcode : Opcode) (compressed : Bool)
    (keys : ℕ → MaskKey) where
  open tx use {State, send, sent, send_ok, send_err}

  send_remainder-ok :
      (payload : List ℕ) (c : Chunks ℕ) (out : Result (List ℕ) Bool × State) (first : Bool)
      → out.0 ≡ ok first
      → length c.remainder < 2 ^ 64
      → send_remainder tx r opcode compressed keys payload c out ≡ (
          if has_rest payload c
          then send
              (wire r
                (data_header opcode first true compressed)
                (keys (length c.chunked))
                c.remainder)
              out.1
          else (ok tt, out.1))
  unfolding send_remainder
  send_remainder-ok payload c (ok g, s) first e h = ground (
    arith,
    single_frame-wire r opcode c.remainder first true compressed (keys (length c.chunked)) h,
  )
  send_remainder-ok payload c (err x, s) first e h = cc

  send_remainder-err :
      (payload : List ℕ) (c : Chunks ℕ) (out : Result (List ℕ) Bool × State) (x : List ℕ)
      → out.0 ≡ err x
      → send_remainder tx r opcode compressed keys payload c out ≡ (err x, out.1)
  unfolding send_remainder
  send_remainder-err payload c (ok g, s) x e = cc
  send_remainder-err payload c (err y, s) x e = ground arith

  is_empty-chunked :
      (n : ℕ) (chunks : List (List ℕ))
      → 0 < n
      → All (λ x. length x ≡ n) chunks
      → is_empty (concat chunks) ≡ true
      → chunks ≡ []
  is_empty-chunked n [] p h e = refl
  is_empty-chunked n ([] ∷ xs) p h e = absurd (omega arith)
  is_empty-chunked n ((y ∷ ys) ∷ xs) p h e = cc

  -- With a last frame to come, no chunk is marked as final.
  frames_from-open :
      (n : ℕ) (payload : List ℕ) (c : Chunks ℕ)
      → 0 < n
      → All (λ x. length x ≡ n) c.chunked
      → concat c.chunked ++ c.remainder ≡ payload
      → has_rest payload c ≡ true
      → frames_from r opcode compressed keys (is_empty c.remainder) 0 true c.chunked
        ≡ frames_from r opcode compressed keys false 0 true c.chunked
  frames_from-open n payload c p sizes whole more = elim (Bool-cases (is_empty c.remainder)) [
    | inr some_bytes ↦ rw some_bytes
    | inl nothing ↦
        let empty : is_empty payload ≡ true = ground arith in
        let chunks : is_empty (concat c.chunked) ≡ true =
          ap is_empty (
            sym (append-nil (concat c.chunked))
            ∙ ap (λ t. concat c.chunked ++ t) (sym (is_empty-eq c.remainder nothing))
            ∙ whole)
          ∙ empty in
        rw (is_empty-chunked n c.chunked p sizes chunks) (unfold frames_from in refl)
  ]

  abbrev with_rest : List ℕ → Chunks ℕ → List (List ℕ)
  with_rest payload c = if has_rest payload c then c.chunked ++ c.remainder ∷ [] else c.chunked

  -- The frame behind the loop completes what the loop has sent.
  send_remainder-send_list :
      (payload : List ℕ) (c : Chunks ℕ) (s : State) (out : Result (List ℕ) Bool × State)
      → send_list tx
          (frames_from r opcode compressed keys (is_empty c.remainder) 0 true c.chunked)
          s
        ≡ (without_flag out.0, out.1)
      → ((f : Bool) → out.0 ≡ ok f → f ≡ still_first true c.chunked)
      → (has_rest payload c ≡ true
          → frames_from r opcode compressed keys (is_empty c.remainder) 0 true c.chunked
            ≡ frames_from r opcode compressed keys false 0 true c.chunked)
      → length c.remainder < 2 ^ 64
      → send_remainder tx r opcode compressed keys payload c out
        ≡ send_list tx (frames_from r opcode compressed keys true 0 true (with_rest payload c)) s
  send_remainder-send_list payload c s out run first open_ small =
      let frames = frames_from r opcode compressed keys (is_empty c.remainder) 0 true c.chunked in
      elim (Bool-cases (has_rest payload c)) [
        | inl more ↦
            let b =
              wire r (data_header opcode (still_first true c.chunked) true compressed)
                (keys (length c.chunked)) c.remainder in
            let snoc : frames_from r opcode compressed keys true 0 true (with_rest payload c)
                ≡ frames ++ b ∷ [] =
              rw more (
                frames_from-snoc r opcode compressed keys 0 true c.chunked c.remainder
                ∙ rw (open_ more, zero-add)) in
            elim (Result-cases out.0) [
              | inl (f, e) ↦
                  let ran : send_list tx frames s ≡ (ok tt, out.1) =
                    run ∙ ap (λ x. (without_flag x, out.1)) e in
                  let last : send_remainder tx r opcode compressed keys payload c out
                      ≡ send b out.1 =
                    send_remainder-ok payload c out f e small ∙ rw (more, first f e) refl in
                  last
                  ∙ sym (
                      ap (λ fs. send_list tx fs s) snoc
                      ∙ send_list-snoc-ok tx frames b s out.1 tt ran)
              | inr (x, e) ↦
                  let ran : send_list tx frames s ≡ (err x, out.1) =
                    run ∙ ap (λ y. (without_flag y, out.1)) e in
                  send_remainder-err payload c out x e
                  ∙ sym (
                      ap (λ fs. send_list tx fs s) snoc
                      ∙ send_list-more-err tx frames (b ∷ []) s out.1 x ran)
            ]
        | inr all ↦
            let (nothing, _) = no_rest payload c all in
            let whole : frames_from r opcode compressed keys true 0 true (with_rest payload c)
                ≡ frames =
              rw (all, nothing) refl in
            elim (Result-cases out.0) [
              | inl (f, e) ↦
                  let done : send_remainder tx r opcode compressed keys payload c out
                      ≡ (ok tt, out.1) =
                    send_remainder-ok payload c out f e small ∙ rw all refl in
                  done
                  ∙ sym (
                      ap (λ fs. send_list tx fs s) whole
                      ∙ run
                      ∙ ap (λ x. (without_flag x, out.1)) e)
              | inr (x, e) ↦
                  send_remainder-err payload c out x e
                  ∙ sym (
                      ap (λ fs. send_list tx fs s) whole
                      ∙ run
                      ∙ ap (λ y. (without_flag y, out.1)) e)
            ]
      ]

  -- `all_frames` does what sending the frames for the fragments of the message does, one after the
  -- other until a send fails: it leaves the channel in the same state, and it returns no error if
  -- every send succeeds, and otherwise the error of the first send that fails. There is at least one
  -- byte to a chunk, and a chunk is shorter than 2 ^ 64.
  pub all_frames_by-send_list :
      (n : ℕ) (payload : List ℕ) (s : State)
      → 0 < n
      → n < 2 ^ 64
      → all_frames_by tx n r opcode payload compressed keys s
        ≡ send_list tx (frames_from r opcode compressed keys true 0 true (fragments n payload)) s
  unfolding all_frames_by fragments
  all_frames_by-send_list n payload s p small =
      let c = as_chunks n payload in
      let (whole, sizes, rest) = as_chunks-parts n payload p in
      let (run, first) =
        send_chunks-send_list tx r opcode compressed keys c 0 c.chunked true s (omega arith)
          (All-mono (λ x e. omega arith) c.chunked sizes) in
      send_remainder-send_list payload c s
        (send_chunks tx r opcode compressed keys c 0 c.chunked true s) run first
        (frames_from-open n payload c p sizes whole) (omega arith)

  -- What the channel has taken: all the frames in order, or those before the first error.
  pub all_frames_by-Sends :
      (n : ℕ) (payload : List ℕ) (s : State)
      → 0 < n
      → n < 2 ^ 64
      → let out = all_frames_by tx n r opcode payload compressed keys s in
        Sends tx s out.1
          (frames_from r opcode compressed keys true 0 true (fragments n payload))
          (is_ok out.0)
  all_frames_by-Sends n payload s p small =
      let frames = frames_from r opcode compressed keys true 0 true (fragments n payload) in
      subst (λ out. Sends tx s out.1 frames (is_ok out.0))
        (sym (all_frames_by-send_list n payload s p small))
        (send_list-Sends tx r opcode compressed keys frames s)
