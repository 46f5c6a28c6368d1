-- ===== src/StringWriter/Examples.antt =====
-- Runs of the string writer of fastjson.c, with a one-pass writer that puts a backslash in front of
-- what needs an escape and refuses the byte 255.
use fastjson.Prelude.{
  ℕ, Bool, true, false, Option, none, some, [], ◌∷◌, ◌++◌, ◌≡◌, refl, sym, ap, ◌∙◌, arith, Bytes,
  codes, ◌==◌, if◌then◌else◌, append_assoc, drop, leb, ◌*◌,
}
use mathlib.Core.List.{append_cancel_right}
use fastjson.StringWriter.{
  Buf, WriteFlags, Env, fits, byte_needs_escape, word_needs_escape, string_is_copyable_ascii,
}
use fastjson.StringWriter.Large.{quoted, write_large_json_string}
use fastjson.StringWriter.Laws.{WriterLaws, Outcome}
use fastjson.StringWriter.Appends.{write_large_json_string_lem}

unfoldable pub escape : WriteFlags → ℕ → Bytes
escape flags c = if byte_needs_escape flags c then 92 ∷ c ∷ [] else c ∷ []

unfoldable pub onto : ℕ → Bytes → Option Bytes → Option Bytes
onto c e none = none
onto c e (some x) = if c == 255 then none else some (e ++ x)

unfoldable pub escape_all : WriteFlags → Bytes → Option Bytes
unfolding escape onto
escape_all flags [] = some []
escape_all flags (c ∷ t) = onto c (escape flags c) (escape_all flags t)

unfoldable pub in_quotes : Option Bytes → Option Bytes
in_quotes none = none
in_quotes (some x) = some (quoted x)

escape_all_plain :
    (flags : WriteFlags) (s : Bytes)
    → word_needs_escape flags s ≡ false
    → escape_all flags s ≡ some s
unfolding escape_all word_needs_escape byte_needs_escape escape onto
escape_all_plain flags [] h = refl
escape_all_plain flags (c ∷ t) h =
    ap (onto c (escape flags c)) (escape_all_plain flags t (ground arith)) ∙ one
  where
    one : onto c (escape flags c) (some t) ≡ some (c ∷ t)
    one = ground (arith, onto, escape, byte_needs_escape)

both : Option Bytes → Option Bytes → Option Bytes
both none o = none
both (some x) none = none
both (some x) (some y) = some (x ++ y)

both-onto : (c : ℕ) (e : Bytes) (o p : Option Bytes) → onto c e (both o p) ≡ both (onto c e o) p
unfolding onto both
both-onto c e none p = refl
both-onto c e (some x) none = choose (c == 255)
  where
    choose : (b : Bool) → none ≡ both (if b then none else some (e ++ x)) none
    choose true = refl
    choose false = refl
both-onto c e (some x) (some y) = choose (c == 255)
  where
    choose :
        (b : Bool)
        → (if b then none else some (e ++ (x ++ y)))
          ≡ both (if b then none else some (e ++ x)) (some y)
    choose true = refl
    choose false = ap some (sym (append_assoc e x y))

escape_all-append :
    (flags : WriteFlags) (s t : Bytes)
    → escape_all flags (s ++ t) ≡ both (escape_all flags s) (escape_all flags t)
unfolding escape_all both
escape_all-append flags [] t = alone (escape_all flags t)
  where
    alone : (o : Option Bytes) → o ≡ both (some []) o
    alone none = refl
    alone (some x) = refl
escape_all-append flags (c ∷ s) t =
    ap (onto c (escape flags c)) (escape_all-append flags s t)
    ∙ both-onto c (escape flags c) (escape_all flags s) (escape_all flags t)

both-in_quotes :
    (o p : Option Bytes) (x y : Bytes)
    → in_quotes o ≡ some (quoted x)
    → in_quotes p ≡ some (quoted y)
    → in_quotes (both o p) ≡ some (quoted (x ++ y))
unfolding in_quotes both
both-in_quotes none p x y h g = absurd (cc h)
both-in_quotes (some a) none x y h g = absurd (cc g)
both-in_quotes (some a) (some b) x y h g = rw (inside a x h, inside b y g)
  where
    unwrap : Option Bytes → Bytes
    unwrap none = []
    unwrap (some w) = drop 1 w

    inside : (a x : Bytes) → some (quoted a) ≡ some (quoted x) → a ≡ x
    inside a x e = append_cancel_right a x (34 ∷ []) (ap unwrap e)

abbrev pub small_env : Env
small_env = record {
  max_len = 1000000;
  grow = λ room len. if leb len room then room else len;
  project = λ left written read. 2 * left;
  write_string = λ flags s. in_quotes (escape_all flags s);
}

abbrev pub default_flags : WriteFlags
default_flags = record { slashes = true; unicode = false }

pub small_laws : WriterLaws small_env default_flags
unfolding in_quotes
small_laws = record {
  plain = λ s h. ap in_quotes (escape_all_plain default_flags s h);
  between = λ s w h. between_lem (escape_all default_flags s) w h;
  joined = λ s t x y h g.
      ap in_quotes (escape_all-append default_flags s t)
      ∙ both-in_quotes (escape_all default_flags s) (escape_all default_flags t) x y h g;
}
  where
    held : Option Bytes → Bytes
    held none = []
    held (some y) = y

    between_lem :
        (o : Option Bytes) (w : Bytes) → in_quotes o ≡ some w → (x : Bytes) × (w ≡ quoted x)
    between_lem none w h = absurd (cc h)
    between_lem (some x) w h = (x, sym (ap held h))

abbrev empty_buf : Buf
empty_buf = record { bytes = codes "[1,"; room = 16 }

copied :
    (write_large_json_string small_env default_flags (codes "abc") empty_buf)
    ≡ (fits, record { bytes = codes "[1,\"abc\""; room = 16 })
unfolding write_large_json_string string_is_copyable_ascii
copied = refl

write_large_json_string_lem_example :
    Outcome small_env default_flags
      (codes "a/b")
      empty_buf.bytes
      (write_large_json_string small_env default_flags (codes "a/b") empty_buf)
write_large_json_string_lem_example =
    write_large_json_string_lem small_env default_flags small_laws (codes "a/b") empty_buf
