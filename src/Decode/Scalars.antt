-- ===== src/Decode/Scalars.antt =====
-- The scalars that fastjson_pointer_build_replacement of fastjson_pointer_splice.c turns into JSON
-- values itself.
use fastjson.Prelude.{
  ℕ, Bool, true, false, Option, some, Bytes, ◌≡◌, refl, ◌⊎◌, inl, inr, ap, subst, arith, Bool-cases,
}
use fastjson.Doc.{Val, sint, str}
use fastjson.Utf8.{sanitize_utf8, utf8_well_formed, SanitizeMode}
use fastjson.Utf8.Table.{WellFormed}
use fastjson.Utf8.Checks.{utf8_well_formed_iff}
use fastjson.Splice.SetAt.{name}
use fastjson.Zval.{Zval}
use fastjson.Encoder.{Setting}
use fastjson.Decode.Set.{plain_value, replaced_string, dereferenced, must_encode}

-- None of the flags that leave a scalar to the encoder is set.
pub record HasPlainFlags (s : Setting) : Type 0 where
  pub no_force_object : s.flags.force_object ≡ false
  pub no_numeric_check : s.flags.numeric_check ≡ false
  pub no_partial_output : s.flags.partial_output ≡ false
  pub no_preserve_zero_fraction : s.flags.preserve_zero_fraction ≡ false

-- The JSON value of null, a Boolean, an integer or a string. A string stands for itself where it is
-- well formed or neither IGNORE nor SUBSTITUTE is set, and for the sanitized one otherwise.
pub data IsScalar (s : Setting) : Zval → Val → Type 0 where
  null : IsScalar s Zval.null Val.null
  bool : (b : Bool) → IsScalar s (Zval.bool b) (Val.bool b)
  long : (n : ℕ) → IsScalar s (Zval.long n) (Val.num (sint n))
  well_formed : (t : Bytes) → WellFormed t → IsScalar s (Zval.string t) (str (name t))
  unhandled :
      (t : Bytes)
      → s.flags.ignore ≡ false
      → s.flags.subst ≡ false
      → IsScalar s (Zval.string t) (str (name t))
  sanitized :
      (t : Bytes)
      → ¬ (WellFormed t)
      → (s.flags.ignore ≡ true) ⊎ (s.flags.subst ≡ true)
      → IsScalar s
          (Zval.string t)
          (str (name (sanitize_utf8 s.flags.ignore s.flags.subst SanitizeMode.encode t)))

-- The argument is a scalar, or a reference to one.
pub data Stands (s : Setting) : Zval → Val → Type 0 where
  itself : {z : Zval} {v : Val} → IsScalar s z v → Stands s z v
  behind_reference : {z : Zval} {v : Val} → IsScalar s z v → Stands s (Zval.reference z) v

pub must_encode_lem : (s : Setting) → HasPlainFlags s → must_encode s ≡ false
must_encode_lem s p = ground arith

module _ (s : Setting) (t : Bytes) where
  replaced_kept : utf8_well_formed t ≡ true → replaced_string s t ≡ t
  unfolding replaced_string
  replaced_kept h = ground arith

  replaced_unhandled : s.flags.ignore ≡ false → s.flags.subst ≡ false → replaced_string s t ≡ t
  unfolding replaced_string
  replaced_unhandled i u = ground arith

  replaced_sanitized :
      utf8_well_formed t ≡ false
      → (s.flags.ignore ≡ true) ⊎ (s.flags.subst ≡ true)
      → replaced_string s t ≡ sanitize_utf8 s.flags.ignore s.flags.subst SanitizeMode.encode t
  unfolding replaced_string
  replaced_sanitized h f = ground arith

  malformed : ¬ (WellFormed t) → utf8_well_formed t ≡ false
  malformed n = elim (Bool-cases (utf8_well_formed t)) [
    | inl e ↦ absurd (n ((utf8_well_formed_iff t).0 e))
    | inr e ↦ e
  ]

abbrev as_string : Bytes → Option Val
as_string t = some (str (name t))

IsScalar-plain_value :
    (s : Setting) {z : Zval} {v : Val} → IsScalar s z v → plain_value s z ≡ some v
unfolding plain_value
IsScalar-plain_value s null = refl
IsScalar-plain_value s (bool b) = refl
IsScalar-plain_value s (long n) = refl
IsScalar-plain_value s (well_formed t w) =
    ap as_string (replaced_kept s t ((utf8_well_formed_iff t).1 w))
IsScalar-plain_value s (unhandled t i u) = ap as_string (replaced_unhandled s t i u)
IsScalar-plain_value s (sanitized t n f) = ap as_string (replaced_sanitized s t (malformed s t n) f)

IsScalar-dereferenced : (s : Setting) {z : Zval} {v : Val} → IsScalar s z v → z ≡ dereferenced z
IsScalar-dereferenced s null = refl
IsScalar-dereferenced s _ = refl

pub Stands-plain_value :
    (s : Setting) {z : Zval} {v : Val} → Stands s z v → plain_value s (dereferenced z) ≡ some v
Stands-plain_value s (itself {v = v} x) =
    subst (λ y. plain_value s y ≡ some v) (IsScalar-dereferenced s x) (IsScalar-plain_value s x)
Stands-plain_value s (behind_reference x) = IsScalar-plain_value s x
