-- ===== src/Ws/Writer/InOrder.antt =====
-- One channel of the writer: what was written of it, and what was sent.
use wust_socket.Prelude.{
  ℕ, ◌≡◌, refl, sym, ap, ◌∙◌, List, [], ◌∷◌, ◌++◌, Bool, true, false, append_assoc, append-nil,
  if◌then◌else◌,
}

-- One channel: what was written of it, what a failed write has lost, and what still waits are what
-- was sent, in order. Nothing is lost while the task runs.
pub record InOrder (written queue sent : List (List ℕ)) (running : Bool) : Type 0 where
  pub lost : List (List ℕ)
  pub in_order : written ++ lost ++ queue ≡ sent
  pub kept : running ≡ true → lost ≡ []

module _ {w q sent : List (List ℕ)} {running : Bool} where
  pub InOrder-send :
      (b : List ℕ)
      → running ≡ true
      → InOrder w q sent running
      → InOrder w (q ++ b ∷ []) (sent ++ b ∷ []) running
  InOrder-send b r v = record {
    lost = v.lost;
    in_order = sym (append_assoc (w ++ v.lost) q (b ∷ [])) ∙ ap (λ s. s ++ b ∷ []) v.in_order;
    kept = v.kept;
  }

  -- Nothing of this channel is touched, but the task may end.
  pub InOrder-stop :
      (still : Bool) → running ≡ true → InOrder w q sent running → InOrder w q sent still
  InOrder-stop still r v = record { lost = v.lost; in_order = v.in_order; kept = λ k. v.kept r }

take_front : (w rest : List (List ℕ)) (b : List ℕ) → w ++ [] ++ (b ∷ rest) ≡ w ++ b ∷ [] ++ rest
take_front w rest b = simp (append_assoc, append-nil)

-- The first of what waits is written, or lost.
pub InOrder-take :
    {w rest sent : List (List ℕ)} {running : Bool} {b : List ℕ} (writes still : Bool)
    → running ≡ true
    → (still ≡ true → writes ≡ true)
    → InOrder w (b ∷ rest) sent running
    → InOrder (w ++ (if writes then b ∷ [] else [])) rest sent still
InOrder-take {w} {rest} {sent} {b} true still r f v = record {
  lost = [];
  in_order =
      ap (λ t. t ++ rest) (append-nil (w ++ b ∷ []))
      ∙ sym (take_front w rest b)
      ∙ ap (λ l. w ++ l ++ (b ∷ rest)) (sym (v.kept r))
      ∙ v.in_order;
  kept = λ k. refl;
}
InOrder-take {w} {rest} {sent} {b} false still r f v = record {
  lost = b ∷ [];
  in_order =
      ap (λ t. t ++ b ∷ [] ++ rest) (append-nil w)
      ∙ sym (take_front w rest b)
      ∙ ap (λ l. w ++ l ++ (b ∷ rest)) (sym (v.kept r))
      ∙ v.in_order;
  kept = λ k. cc (f k);
}
