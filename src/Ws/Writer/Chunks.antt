-- ===== src/Ws/Writer/Chunks.antt =====
-- What was written, by the channel that it came from.
use wust_socket.Prelude.{
  ℕ, ◌≡◌, ◌⊎◌, inl, inr, refl, ap, ◌∙◌, arith, List, [], ◌∷◌, ◌++◌, Bool, true, false, append-nil,
  ◌&&◌, if◌then◌else◌,
}
use wust_socket.Ws.Writer.{Chunk, Io, logged}

abbrev pub closes : List Chunk → List (List ℕ)
closes [] = []
closes (Chunk.close b ∷ cs) = b ∷ closes cs
closes (Chunk.ctrl b ∷ cs) = closes cs
closes (Chunk.data_frame b ∷ cs) = closes cs

abbrev pub ctrls : List Chunk → List (List ℕ)
ctrls [] = []
ctrls (Chunk.close b ∷ cs) = ctrls cs
ctrls (Chunk.ctrl b ∷ cs) = b ∷ ctrls cs
ctrls (Chunk.data_frame b ∷ cs) = ctrls cs

abbrev pub datas : List Chunk → List (List ℕ)
datas [] = []
datas (Chunk.close b ∷ cs) = datas cs
datas (Chunk.ctrl b ∷ cs) = datas cs
datas (Chunk.data_frame b ∷ cs) = b ∷ datas cs

closes-append : (xs ys : List Chunk) → closes (xs ++ ys) ≡ closes xs ++ closes ys
closes-append [] ys = refl
closes-append (Chunk.close b ∷ xs) ys = ap (◌∷◌ b) (closes-append xs ys)
closes-append (Chunk.ctrl b ∷ xs) ys = closes-append xs ys
closes-append (Chunk.data_frame b ∷ xs) ys = closes-append xs ys

pub ctrls-append : (xs ys : List Chunk) → ctrls (xs ++ ys) ≡ ctrls xs ++ ctrls ys
ctrls-append [] ys = refl
ctrls-append (Chunk.close b ∷ xs) ys = ctrls-append xs ys
ctrls-append (Chunk.ctrl b ∷ xs) ys = ap (◌∷◌ b) (ctrls-append xs ys)
ctrls-append (Chunk.data_frame b ∷ xs) ys = ctrls-append xs ys

pub datas-append : (xs ys : List Chunk) → datas (xs ++ ys) ≡ datas xs ++ datas ys
datas-append [] ys = refl
datas-append (Chunk.close b ∷ xs) ys = datas-append xs ys
datas-append (Chunk.ctrl b ∷ xs) ys = datas-append xs ys
datas-append (Chunk.data_frame b ∷ xs) ys = ap (◌∷◌ b) (datas-append xs ys)

pub ctrls-logged :
    (io : Io) (b : List ℕ) → ctrls (logged io (Chunk.ctrl b)) ≡ (if io.writes then b ∷ [] else [])
ctrls-logged io b = ground arith

pub datas-logged :
    (io : Io) (b : List ℕ)
    → datas (logged io (Chunk.data_frame b)) ≡ (if io.writes then b ∷ [] else [])
datas-logged io b = ground arith

-- A chunk of another kind leaves the others as they are.
pub others :
    (io : Io) (b : List ℕ)
    → (ctrls (logged io (Chunk.close b)) ≡ [])
      × (datas (logged io (Chunk.close b)) ≡ [])
      × (datas (logged io (Chunk.ctrl b)) ≡ [])
      × (closes (logged io (Chunk.ctrl b)) ≡ [])
      × (ctrls (logged io (Chunk.data_frame b)) ≡ [])
      × (closes (logged io (Chunk.data_frame b)) ≡ [])
others io b = ground arith

pub keep_ctrls : (ws l : List Chunk) → ctrls l ≡ [] → ctrls (ws ++ l) ≡ ctrls ws
keep_ctrls ws l e = ctrls-append ws l ∙ ap (λ t. ctrls ws ++ t) e ∙ append-nil (ctrls ws)

pub keep_datas : (ws l : List Chunk) → datas l ≡ [] → datas (ws ++ l) ≡ datas ws
keep_datas ws l e = datas-append ws l ∙ ap (λ t. datas ws ++ t) e ∙ append-nil (datas ws)

pub keep_closes : (ws l : List Chunk) → closes l ≡ [] → closes (ws ++ l) ≡ closes ws
keep_closes ws l e = closes-append ws l ∙ ap (λ t. closes ws ++ t) e ∙ append-nil (closes ws)

pub close_cases :
    (writes : Bool) (ws : List Chunk) (b : List ℕ)
    → closes ws ≡ []
    → let now = ws ++ (if writes then Chunk.close b ∷ [] else []) in
      (closes now ≡ [])
      ⊎ ((front : List Chunk) × (b : List ℕ) × (now ≡ front ++ Chunk.close b ∷ [])
          × (closes front ≡ [])
          × (false ≡ false))
close_cases true ws b e = inr (ws, b, refl, e, refl)
close_cases false ws b e = inl (ap closes (append-nil ws) ∙ e)

pub writes_of : (io : Io) → (io.writes && io.flushes) ≡ true → io.writes ≡ true
writes_of io h = ground arith
