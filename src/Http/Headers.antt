-- ===== src/Http/Headers.antt =====
-- The header lines of a request and of a response, the same loop in src/server.rs and src/client.rs,
-- and `validate_header` of src/ws/websocket.rs.
use wust_socket.Prelude.{
  ℕ, ◌≡◌, List, [], ◌∷◌, Option, none, some, Bool, true, false, map, All, ◌<◌, Result, ok, err,
  if◌then◌else◌, is_empty, list_eq,
}
use wust_socket.Error.{UpgradeError}
use wust_socket.Http.Text.{trim, trim_end, split_once, ascii_lower, eq_ignore_ascii_case}

-- `str::to_lowercase`, which goes by the tables of Unicode. On ASCII it is `to_ascii_lowercase`.
pub record Lowercase : Type 0 where
  pub to_lowercase : List ℕ → List ℕ
  pub ascii : (s : List ℕ) → All (λ c. c < 128) s → to_lowercase s ≡ map ascii_lower s

-- A result of `read_line`: a line with its newline, or an error.
pub data LineRead : Type 0 where
  line : List ℕ → LineRead
  failed : LineRead

-- `HashMap<String, String>`: the newest entry of a key stands first.
abbrev pub Table : Type 0
Table = List (List ℕ × List ℕ)

unfoldable pub get : Table → List ℕ → Option (List ℕ)
get [] field = none
get ((name, value) ∷ t) field =
    let older = get t field in if list_eq name field then some value else older

unfoldable pub contains_key : Table → List ℕ → Bool
contains_key t field = elim (get t field) [ none ↦ false | some v ↦ true ]

unfoldable pub validate_header : Table → List ℕ → List ℕ → Result UpgradeError (Unit {0})
validate_header t field expected = elim (get t field) [
  | none ↦ err (UpgradeError.missing_header field)
  | some value ↦
      if eq_ignore_ascii_case value expected
      then ok tt
      else err (UpgradeError.header field expected value)
]

module _ (lower : Lowercase) where
  open lower use {to_lowercase}

  -- A line of the headers, without the white space at its end.
  unfoldable pub add_line : Table → List ℕ → Table
  add_line t s = elim (split_once b':' s) [
    | none ↦ t
    | some (name, value) ↦ (to_lowercase (trim name), trim value) ∷ t
  ]

  -- The loop over the header lines. Past the end of the stream `read_line` gives an empty line.
  unfoldable pub collect : List LineRead → Table → Result UpgradeError Table
  collect [] t = ok t
  collect (LineRead.failed ∷ lines) t = err UpgradeError.read
  collect (LineRead.line s ∷ lines) t =
      let rest = collect lines (add_line t (trim_end s)) in
      if is_empty (trim_end s) then ok t else rest
