-- ===== src/Frames/Data/Parts.antt =====
-- The parts into which a message is cut for its frames.
use wust_socket.Prelude.{
  ℕ, ◌≤◌, ◌<◌, ◌≡◌, inl, inr, refl, sym, ap, ◌∙◌, List, [], ◌∷◌, ◌++◌, Bool, not, true, false, ◌||◌,
  if◌then◌else◌, length, is_empty, arith, append_assoc, append-nil, All, All-append, Chunks,
  as_chunks, as_chunks-parts, concat, Bool-cases,
}
use wust_socket.Frames.Data.Message.{is_empty-snoc}

-- The test behind the loop: a remainder, or an empty message, gives a last frame.
abbrev pub has_rest : List ℕ → Chunks ℕ → Bool
has_rest payload c = not (is_empty c.remainder) || is_empty payload

-- The parts of a message that become its frames.
unfoldable pub fragments : ℕ → List ℕ → List (List ℕ)
fragments n payload =
    let c = as_chunks n payload in
    if has_rest payload c then c.chunked ++ c.remainder ∷ [] else c.chunked

pub concat-snoc : (xs : List (List ℕ)) (x : List ℕ) → concat (xs ++ x ∷ []) ≡ concat xs ++ x
concat-snoc [] x = append-nil x
concat-snoc (y ∷ ys) x = ap (λ t. y ++ t) (concat-snoc ys x) ∙ sym (append_assoc y (concat ys) x)

pub All-mono :
    {P Q : List ℕ → Type 0} (f : (x : List ℕ) → P x → Q x) (xs : List (List ℕ))
    → All P xs
    → All Q xs
All-mono f [] h = tt
All-mono f (x ∷ xs) h = (f x h.0, All-mono f xs h.1)

pub is_empty-eq : (xs : List ℕ) → is_empty xs ≡ true → xs ≡ []
is_empty-eq [] h = refl
is_empty-eq (x ∷ xs) h = cc

-- Where no last frame is added, the chunks are all of a message that is not empty.
pub no_rest :
    (payload : List ℕ) (c : Chunks ℕ)
    → has_rest payload c ≡ false
    → (c.remainder ≡ []) × (is_empty payload ≡ false)
no_rest payload c h = (is_empty-eq c.remainder (ground arith), ground arith)

is_empty-concat :
    (xs : List (List ℕ)) (payload : List ℕ)
    → concat xs ≡ payload
    → is_empty payload ≡ false
    → is_empty xs ≡ false
is_empty-concat [] payload e h = cc (ap is_empty e)
is_empty-concat (x ∷ xs) payload e h = refl

-- The fragments put together are the message, none is longer than `n`, and there is at least one.
pub fragments-parts :
    (n : ℕ) (payload : List ℕ)
    → 0 < n
    → (concat (fragments n payload) ≡ payload)
      × All (λ x. length x ≤ n) (fragments n payload)
      × (is_empty (fragments n payload) ≡ false)
unfolding fragments
fragments-parts n payload p =
    let c = as_chunks n payload in
    let (whole, sizes, rest) = as_chunks-parts n payload p in
    let full : All (λ x. length x ≤ n) c.chunked = All-mono (λ x e. omega arith) c.chunked sizes in
    elim (Bool-cases (has_rest payload c)) [
      | inl more ↦ rw more (
        concat-snoc c.chunked c.remainder ∙ whole,
        All-append (λ x. length x ≤ n) c.chunked (c.remainder ∷ []) full (omega arith, tt),
        is_empty-snoc c.chunked c.remainder,
      )
      | inr all ↦
          let (nothing, some_bytes) = no_rest payload c all in
          let chunks : concat c.chunked ≡ payload =
            sym (append-nil (concat c.chunked))
            ∙ ap (λ t. concat c.chunked ++ t) (sym nothing)
            ∙ whole in
          rw all (chunks, full, is_empty-concat c.chunked payload chunks some_bytes)
    ]
