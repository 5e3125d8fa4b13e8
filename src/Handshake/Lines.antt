-- ===== src/Handshake/Lines.antt =====
-- A text of lines, read line by line, and a header line in the table.
use wust_socket.Prelude.{
  ℕ, ◌<◌, ◌≡◌, refl, ap, ◌∙◌, sym, arith, List, [], ◌∷◌, ◌++◌, Bool, true, false, ◌==◌, ◌&&◌, not,
  ltb, ok, if◌then◌else◌, is_empty, All, append_assoc, append-nil, map, codes,
}
use wust_socket.Http.Text.{is_whitespace, trim_start, trim_end, trim, ascii_lower}
use wust_socket.Http.Headers.{Lowercase, LineRead, Table, collect, add_line}
use wust_socket.Handshake.Scan.{
  IsSolid, Avoids, trim_end-append, trim_end-IsSolid, trim_start-IsSolid, split_once_from-Avoids,
}

-- `read_line`, called until the end of a text: a line ends behind its newline.
pub record LineReader : Type 0 where
  pub read : List ℕ → List LineRead
  pub at_line :
      (s rest : List ℕ)
      → Avoids b'\n' s
      → read (s ++ b'\n' ∷ rest) ≡ LineRead.line (s ++ b'\n' ∷ []) ∷ read rest

abbrev pub text_of : List (List ℕ) → List ℕ
text_of [] = []
text_of (s ∷ lines) = s ++ b'\n' ∷ text_of lines

abbrev pub lines_of : List (List ℕ) → List LineRead → List LineRead
lines_of [] rest = rest
lines_of (s ∷ lines) rest = LineRead.line (s ++ b'\n' ∷ []) ∷ lines_of lines rest

pub read-text_of :
    (reader : LineReader) (lines : List (List ℕ))
    → All (Avoids b'\n') lines
    → reader.read (text_of lines) ≡ lines_of lines (reader.read [])
read-text_of reader [] h = refl
read-text_of reader (s ∷ lines) h =
    reader.at_line s (text_of lines) h.0
    ∙ ap (◌∷◌ (LineRead.line (s ++ b'\n' ∷ []))) (read-text_of reader lines h.1)

solid_not_newline : (c : ℕ) → is_whitespace c ≡ false → (c == b'\n') ≡ false
unfolding is_whitespace
solid_not_newline c h = ground arith

pub Avoids-IsSolid : (s : List ℕ) → IsSolid s → Avoids b'\n' s
Avoids-IsSolid [] h = tt
Avoids-IsSolid (c ∷ s) h = (solid_not_newline c h.0, Avoids-IsSolid s h.1)

-- A test for literals.
abbrev pub avoids_newline : List ℕ → Bool
avoids_newline [] = true
avoids_newline (c ∷ s) = not (c == b'\n') && avoids_newline s

pub Avoids-literal : (s : List ℕ) → avoids_newline s ≡ true → Avoids b'\n' s
Avoids-literal [] h = tt
Avoids-literal (c ∷ s) h = (ground arith, Avoids-literal s (ground arith))

-- The name of a header: ASCII, with neither white space nor a colon.
abbrev pub is_name : List ℕ → Bool
is_name [] = true
is_name (c ∷ s) = (ltb c 128 && not (is_whitespace c) && not (c == b':')) && is_name s

record IsName (s : List ℕ) : Type 0 where
  ascii : All (λ c. c < 128) s
  solid : IsSolid s
  no_colon : Avoids b':' s

is_name-IsName : (s : List ℕ) → is_name s ≡ true → IsName s
is_name-IsName [] h = record { ascii = tt; solid = tt; no_colon = tt }
is_name-IsName (c ∷ s) h =
    let rest = is_name-IsName s (ground arith) in
    record {
      ascii = (ground arith, rest.ascii);
      solid = (ground arith, rest.solid);
      no_colon = (ground arith, rest.no_colon);
    }

-- A value without white space around it.
pub record IsValue (v : List ℕ) : Type 0 where
  pub front : trim_start v ≡ v
  pub back : trim_end v ≡ v
  pub line : trim_end (v ++ b'\r' ∷ b'\n' ∷ []) ≡ v

pub IsSolid-IsValue : (v : List ℕ) → IsSolid v → IsValue v
IsSolid-IsValue v h = record {
  front = trim_start-IsSolid v h;
  back = ap trim_end (sym (append-nil v)) ∙ trim_end-IsSolid v [] h (unfold trim_end in refl);
  line = trim_end-IsSolid v (b'\r' ∷ b'\n' ∷ []) h (unfold trim_end is_whitespace in refl);
}

abbrev pub header_line : List ℕ → List ℕ → List ℕ
header_line name v = name ++ (b':' ∷ b' ' ∷ (v ++ (b'\r' ∷ [])))

colon :
    (v : List ℕ)
    → (let rest = (if is_empty v && is_whitespace b' ' then [] else b' ' ∷ v) in
        if is_empty rest && is_whitespace b':' then [] else b':' ∷ rest)
      ≡ b':' ∷ (if is_empty v then [] else b' ' ∷ v)
unfolding is_whitespace
colon [] = refl
colon (c ∷ v) = refl

-- The line, once the white space at its end is gone: the space behind the colon stays if the value
-- is not empty.
trimmed :
    (name v : List ℕ)
    → IsValue v
    → trim_end (header_line name v ++ b'\n' ∷ [])
      ≡ name ++ b':' ∷ (if is_empty v then [] else b' ' ∷ v)
trimmed name v h =
    let tail : trim_end (b':' ∷ b' ' ∷ (v ++ (b'\r' ∷ b'\n' ∷ [])))
        ≡ b':' ∷ (if is_empty v then [] else b' ' ∷ v) =
      unfold trim_end in rw h.line (colon v) in
    ap trim_end (
      append_assoc name (b':' ∷ b' ' ∷ (v ++ (b'\r' ∷ []))) (b'\n' ∷ [])
      ∙ ap (λ s. name ++ (b':' ∷ b' ' ∷ s)) (append_assoc v (b'\r' ∷ []) (b'\n' ∷ [])))
    ∙ trim_end-append name _ (ap is_empty tail)
    ∙ ap (λ s. name ++ s) tail

trim_name : (name : List ℕ) → IsSolid name → trim name ≡ name
trim_name name h = let v = IsSolid-IsValue name h in ap trim_start v.back ∙ v.front

trim_rest : (v : List ℕ) → IsValue v → trim (if is_empty v then [] else b' ' ∷ v) ≡ v
unfolding trim_end trim_start is_whitespace
trim_rest [] h = refl
trim_rest (c ∷ v) h =
    ap (λ s. trim_start (if is_empty s && is_whitespace b' ' then [] else b' ' ∷ s)) h.back
    ∙ h.front

not_empty : (xs : List ℕ) (y : ℕ) (ys : List ℕ) → is_empty (xs ++ y ∷ ys) ≡ false
not_empty [] y ys = refl
not_empty (x ∷ xs) y ys = refl

module _ (lower : Lowercase) where
  open lower use {to_lowercase}

  add_line-header :
      (name v rest : List ℕ) (t : Table)
      → is_name name ≡ true
      → trim rest ≡ v
      → add_line lower t (name ++ b':' ∷ rest) ≡ (map ascii_lower name, v) ∷ t
  unfolding add_line
  add_line-header name v rest t n h =
      let ok_name = is_name-IsName name n in
      rw (
        split_once_from-Avoids b':' [] name rest ok_name.no_colon,
        h,
        trim_name name ok_name.solid,
        lower.ascii name ok_name.ascii,
        add_line,
      )

  -- A header line puts its name, in lower case, and its value in front of the table.
  pub collect-header :
      (name v : List ℕ) (lines : List LineRead) (t : Table)
      → is_name name ≡ true
      → IsValue v
      → collect lower (LineRead.line (header_line name v ++ b'\n' ∷ []) ∷ lines) t
        ≡ collect lower lines ((map ascii_lower name, v) ∷ t)
  unfolding collect
  collect-header name v lines t n h =
      let rest = (if is_empty v then [] else b' ' ∷ v) in
      rw
        (
          trimmed name v h,
          not_empty name b':' rest,
          add_line-header name v rest t n (trim_rest v h),
          collect,
        )
        refl

-- A header as it is printed.
abbrev pub Field : Type 0
Field = List ℕ × List ℕ

abbrev pub printed : Field → List ℕ
printed (name, v) = header_line name v ++ b'\n' ∷ []

abbrev pub IsField : Field → Type 0
IsField (name, v) = (is_name name ≡ true) × IsValue v

abbrev pub field_lines : List Field → List LineRead → List LineRead
field_lines [] rest = rest
field_lines (f ∷ fields) rest = LineRead.line (printed f) ∷ field_lines fields rest

-- The table after these headers, the newest first.
abbrev pub tabled : List Field → Table → Table
tabled [] t = t
tabled ((name, v) ∷ fields) t = tabled fields ((map ascii_lower name, v) ∷ t)

-- Headers that are printed one to a line and closed by an empty line are read back: the table has
-- each of them, its name in lower case, a later one before an earlier one; what follows the empty
-- line is not read. The names are of ASCII characters without white space or colon, and the values
-- have no white space around them.
pub collect-fields :
    (lower : Lowercase) (fields : List Field) (rest : List LineRead) (t : Table)
    → All IsField fields
    → collect lower (field_lines fields (LineRead.line (codes "\r\n") ∷ rest)) t
      ≡ ok (tabled fields t)
collect-fields lower [] rest t v = unfold collect trim_end is_whitespace in refl
collect-fields lower ((name, v) ∷ fields) rest t h =
    collect-header lower name v _ t h.0.0 h.0.1
    ∙ collect-fields lower fields rest ((map ascii_lower name, v) ∷ t) h.1
