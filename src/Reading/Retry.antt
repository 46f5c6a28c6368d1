-- ===== src/Reading/Retry.antt =====
-- When fastjson_read_doc_ex of fastjson_decode.c, without comments, returns a document: the retry
-- with Inf and NaN allowed against the strings of the text.
use fastjson.Prelude.{
  Bool, true, false, not, ◌&&◌, ◌||◌, Bytes, if◌then◌else◌, ◌≡◌, ◌↔◌, refl, sym, ap, ◌∙◌, arith,
  Bool-cases, inl, inr,
}
use fastjson.Reading.{
  ReadCode, invalid_number, ReadErr, ReadDoc, no_extra, ReadFlags, DecodeFlags, Extra, Parse, doc,
  unread, is_invalid_number, retry, reclassify, read_flags, read_doc_ex, input_has_inf_nan_literal,
}
use fastjson.Reading.Tokens.{HasLiteral}
use fastjson.Reading.Literals.{input_has_inf_nan_literal_iff}

-- How the parser is asked where RELAXED is not set.
abbrev strict_flags : DecodeFlags → (raw validate inf_nan : Bool) → ReadFlags
strict_flags flags raw validate inf_nan = record {
  number_as_raw = raw;
  bignum_as_raw = flags.bigint_as_string;
  validate_only = validate;
  allow_invalid_unicode = flags.ignore || flags.subst;
  relaxed = false;
  allow_inf_and_nan = inf_nan;
}

abbrev pub asked : DecodeFlags → Extra → (inf_nan : Bool) → ReadFlags
asked flags no_extra inf_nan = strict_flags flags false false inf_nan
asked flags Extra.number_as_raw inf_nan = strict_flags flags true false inf_nan
asked flags Extra.validate_only inf_nan = strict_flags flags false true inf_nan

-- A text that the parser reads at once, or one that has a number it does not read but no literal
-- Inf or NaN, and that it reads with Inf and NaN allowed.
pub data Reads (parse : ReadFlags → Bytes → Parse) (json : Bytes) (flags : DecodeFlags)
    (extra : Extra) (d : ReadDoc) : Type 0 where
  at_once : parse (asked flags extra false) json ≡ doc d → Reads parse json flags extra d
  with_infinity :
      (err : ReadErr)
      → parse (asked flags extra false) json ≡ unread err
      → err.code ≡ invalid_number
      → ¬ (HasLiteral json)
      → parse (asked flags extra true) json ≡ doc d
      → Reads parse json flags extra d

reclassify-doc : (json : Bytes) (p : Parse) (d : ReadDoc) → reclassify json p ≡ doc d → p ≡ doc d
unfolding reclassify
reclassify-doc json (doc e) d h = h
reclassify-doc json (unread err) d h = absurd (ground arith)

doc-reclassify : (json : Bytes) (p : Parse) (d : ReadDoc) → p ≡ doc d → reclassify json p ≡ doc d
unfolding reclassify
doc-reclassify json p d h = rw h refl

is_invalid_number_sound : (c : ReadCode) → is_invalid_number c ≡ true → c ≡ invalid_number
is_invalid_number_sound c h = ground arith

read_flags_lem :
    (flags : DecodeFlags) (extra : Extra)
    → flags.relaxed ≡ false
    → read_flags flags extra ≡ asked flags extra false
unfolding read_flags
read_flags_lem flags no_extra h =
    ap (λ b. record (strict_flags flags false false false) { relaxed = b }) h
read_flags_lem flags Extra.number_as_raw h =
    ap (λ b. record (strict_flags flags true false false) { relaxed = b }) h
read_flags_lem flags Extra.validate_only h =
    ap (λ b. record (strict_flags flags false true false) { relaxed = b }) h

asked_again :
    (flags : DecodeFlags) (extra : Extra)
    → record (asked flags extra false) { allow_inf_and_nan = true } ≡ asked flags extra true
asked_again flags no_extra = refl
asked_again flags Extra.number_as_raw = refl
asked_again flags Extra.validate_only = refl

asked_relaxed : (flags : DecodeFlags) (extra : Extra) → (asked flags extra false).relaxed ≡ false
asked_relaxed flags no_extra = refl
asked_relaxed flags Extra.number_as_raw = refl
asked_relaxed flags Extra.validate_only = refl

module _ (parse : ReadFlags → Bytes → Parse) (json : Bytes) (flags : DecodeFlags) (extra : Extra)
    (d : ReadDoc) where
  -- The outcome of the first call, with the two tests of a retry.
  retried : (refused_number literal : Bool) → ReadErr → Parse
  retried refused_number literal err =
      if refused_number && not literal then parse (asked flags extra true) json else unread err

  retry_lem :
      (err : ReadErr)
      → retry parse (asked flags extra false) json (unread err)
        ≡ retried (is_invalid_number err.code) (input_has_inf_nan_literal json false) err
  unfolding retry retried
  retry_lem err = rw (asked_again flags extra, asked_relaxed flags extra) refl

  no_literal_found : ¬ (HasLiteral json) → input_has_inf_nan_literal json false ≡ false
  no_literal_found no_literal = elim (Bool-cases (input_has_inf_nan_literal json false)) [
    | inl e ↦ absurd (no_literal ((input_has_inf_nan_literal_iff json).0 e))
    | inr e ↦ e
  ]

  retried_sound :
      (err : ReadErr) (b l : Bool)
      → parse (asked flags extra false) json ≡ unread err
      → is_invalid_number err.code ≡ b
      → input_has_inf_nan_literal json false ≡ l
      → retried b l err ≡ doc d
      → Reads parse json flags extra d
  unfolding retried
  retried_sound err true false k e f h =
      with_infinity err k (is_invalid_number_sound err.code e)
        (λ has. cc (f, (input_has_inf_nan_literal_iff json).1 has)) h
  retried_sound err true true k e f h = absurd (cc h)
  retried_sound err false l k e f h = absurd (cc h)

  retry_sound :
      (p : Parse)
      → parse (asked flags extra false) json ≡ p
      → retry parse (asked flags extra false) json p ≡ doc d
      → Reads parse json flags extra d
  retry_sound (doc e) k h = at_once (k ∙ unfold retry in h)
  retry_sound (unread err) k h =
      retried_sound err (is_invalid_number err.code) (input_has_inf_nan_literal json false) k refl
        refl (sym (retry_lem err) ∙ h)

  retry_complete :
      Reads parse json flags extra d
      → retry parse (asked flags extra false) json (parse (asked flags extra false) json) ≡ doc d
  retry_complete (at_once h) =
      ap (retry parse (asked flags extra false) json) h ∙ unfold retry in refl
  retry_complete (with_infinity err k c no_literal h) =
      ap (retry parse (asked flags extra false) json) k
      ∙ retry_lem err
      ∙ ap (λ x. retried (is_invalid_number x) (input_has_inf_nan_literal json false) err) c
      ∙ ap (λ l. retried true l err) (no_literal_found no_literal)
      ∙ unfold retried in h

-- Without FASTJSON_DECODE_RELAXED, fastjson_read_doc_ex returns a document exactly where the parser
-- reads it at once with the flags of the call, or where the parser refuses a number, no Inf or NaN
-- stands outside the strings of the text, and the parser reads it with Inf and NaN allowed.
pub read_doc_ex_iff :
    (parse : ReadFlags → Bytes → Parse) (json : Bytes) (flags : DecodeFlags) (extra : Extra)
    → (d : ReadDoc) → flags.relaxed ≡ false
    → (read_doc_ex parse json flags extra ≡ doc d) ↔ Reads parse json flags extra d
unfolding read_doc_ex
read_doc_ex_iff parse json flags extra d strict = rw (read_flags_lem flags extra strict) (
  λ h.
      retry_sound parse json flags extra d (parse (asked flags extra false) json) refl
        (reclassify-doc json _ d h),
  λ r. doc-reclassify json _ d (retry_complete parse json flags extra d r),
)
