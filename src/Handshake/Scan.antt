-- ===== src/Handshake/Scan.antt =====
-- Scanning a text that is put together from parts: white space at its end, the part before a
-- character, the words of a line.
use wust_socket.Prelude.{
  ℕ, ◌≡◌, refl, ap, ◌∙◌, arith, List, [], ◌∷◌, ◌++◌, some, true, false, ◌==◌, is_empty, All,
  append_assoc, append-nil, list_eq, list_eq_iff, map,
}
use wust_socket.Http.Text.{
  is_whitespace, trim_start, trim_end, split_once_from, words_from, ascii_lower,
  eq_ignore_ascii_case,
}

-- No character of a text is white space.
abbrev pub IsSolid : List ℕ → Type 0
IsSolid s = All (λ c. is_whitespace c ≡ false) s

abbrev pub Avoids : ℕ → List ℕ → Type 0
Avoids x s = All (λ c. (c == x) ≡ false) s

is_empty-append : (xs ys : List ℕ) → is_empty ys ≡ false → is_empty (xs ++ ys) ≡ false
is_empty-append [] ys h = h
is_empty-append (x ∷ xs) ys h = refl

pub trim_end-append :
    (xs ys : List ℕ) → is_empty (trim_end ys) ≡ false → trim_end (xs ++ ys) ≡ xs ++ trim_end ys
unfolding trim_end
trim_end-append [] ys h = refl
trim_end-append (x ∷ xs) ys h =
    ground (arith, trim_end-append xs ys h, is_empty-append xs (trim_end ys) h)

pub trim_end-IsSolid : (xs ys : List ℕ) → IsSolid xs → trim_end ys ≡ [] → trim_end (xs ++ ys) ≡ xs
unfolding trim_end
trim_end-IsSolid [] ys h e = e
trim_end-IsSolid (x ∷ xs) ys h e = ground (arith, trim_end-IsSolid xs ys h.1 e)

pub trim_start-IsSolid : (xs : List ℕ) → IsSolid xs → trim_start xs ≡ xs
unfolding trim_start
trim_start-IsSolid [] h = refl
trim_start-IsSolid (x ∷ xs) h = ground arith

pub split_once_from-Avoids :
    (sep : ℕ) (cur xs ys : List ℕ)
    → Avoids sep xs
    → split_once_from sep cur (xs ++ sep ∷ ys) ≡ some (cur ++ xs, ys)
unfolding split_once_from
split_once_from-Avoids sep cur [] ys h = ground (arith, append-nil cur)
split_once_from-Avoids sep cur (x ∷ xs) ys h =
    ground
      (arith, split_once_from-Avoids sep (cur ++ x ∷ []) xs ys h.1, append_assoc cur (x ∷ []) xs)

-- A word, and the words behind the white space after it.
pub words_from-IsSolid :
    (cur xs : List ℕ) (space : ℕ) (rest : List ℕ)
    → IsSolid xs
    → is_whitespace space ≡ true
    → is_empty (cur ++ xs) ≡ false
    → words_from cur (xs ++ space ∷ rest) ≡ (cur ++ xs) ∷ words_from [] rest
unfolding words_from
words_from-IsSolid cur [] space rest h w n = ground (arith, append-nil cur)
words_from-IsSolid cur (x ∷ xs) space rest h w n =
    let whole = append_assoc cur (x ∷ []) xs in
    let later = words_from-IsSolid (cur ++ x ∷ []) xs space rest h.1 w (ap is_empty whole ∙ n) in
    ground (arith, later, whole)

pub list_eq_refl : (xs : List ℕ) → list_eq xs xs ≡ true
list_eq_refl xs = (list_eq_iff xs xs).1 refl

pub eq_ignore_ascii_case_refl : (xs : List ℕ) → eq_ignore_ascii_case xs xs ≡ true
unfolding eq_ignore_ascii_case
eq_ignore_ascii_case_refl xs = list_eq_refl (map ascii_lower xs)
