-- ===== src/Pointer/Cut.antt =====
-- The specification of a pointer's grammar (RFC 6901): the text behind the first slash is cut at
-- every slash, and each part is unescaped.
use mathlib.Core.Option
use fastjson.Prelude.{ℕ, Option, none, some, List, [], ◌∷◌, ◌++◌, Bytes, ◌==◌, if◌then◌else◌}
use fastjson.Pointer.{slash, tilde, is_escape, unescaped}

abbrev pub push_head : ℕ → List Bytes → List Bytes
push_head c [] = (c ∷ []) ∷ []
push_head c (p ∷ ps) = (c ∷ p) ∷ ps

-- The parts between the slashes: always one at least.
unfoldable pub cut : Bytes → List Bytes
cut [] = [] ∷ []
cut (c ∷ t) = if c == slash then [] ∷ cut t else push_head c (cut t)

-- `~0` stands for `~` and `~1` for `/`; any other `~` is an error.
unfoldable pub unescape : Bytes → Option Bytes
unescape [] = some []
unescape (c ∷ []) = if c == tilde then none else some (c ∷ [])
unescape (c ∷ next ∷ t) =
    let skip = Option.map (λ u. unescaped next ∷ u) (unescape t) in
    let go = Option.map (λ u. c ∷ u) (unescape (next ∷ t)) in
    if c == tilde then (if is_escape next then skip else none) else go

unfoldable pub unescape_all : List Bytes → Option (List Bytes)
unescape_all [] = some []
unescape_all (p ∷ ps) = elim (unescape p) [
  | none ↦ none
  | some key ↦ Option.map (λ keys. key ∷ keys) (unescape_all ps)
]

-- Writing a pointer: the inverse of the two.
unfoldable pub escape : Bytes → Bytes
escape [] = []
escape (c ∷ t) =
    if c == tilde
    then tilde ∷ b'0' ∷ escape t
    else if c == slash
    then tilde ∷ b'1' ∷ escape t
    else c ∷ escape t

unfoldable pub pointer_of : List Bytes → Bytes
pointer_of [] = []
pointer_of (key ∷ keys) = slash ∷ escape key ++ pointer_of keys
