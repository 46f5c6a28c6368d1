-- ===== src/Reading.antt =====
-- Reading a document: fastjson_read_doc_ex of fastjson_decode.c, and the scan for a literal Inf or
-- NaN of fastjson.c that decides whether it retries. The parser of the vendored library is a
-- parameter; fastjson_read_doc passes no extra flags.
pub mod Tokens
pub mod Literals
pub mod Retry
mod Examples
use fastjson.Prelude.{
  ℕ, zero, suc, ◌+◌, ◌/◌, ◌%◌, ◌*◌, Bool, true, false, not, ◌&&◌, ◌||◌, Option, none, some, [], ◌∷◌,
  Bytes, length, drop, get_or, ltb, leb, ◌==◌, if◌then◌else◌,
}
use fastjson.Doc.{Val}
use fastjson.Utf8.{byte_is_valid_utf8_start}

-- yyjson_read_code: the codes that the extension tells apart.
pub data ReadCode : Type 0 where
  success invalid_string invalid_number invalid_parameter : ReadCode
  another : ℕ → ReadCode

-- yyjson_read_err
pub record ReadErr : Type 0 where
  pub code : ReadCode
  pub msg : Option Bytes
  pub pos : ℕ

-- A yyjson_doc: its root, and `val_read`, which counts the nesting where it was only validated.
pub record ReadDoc : Type 0 where
  pub root : Val
  pub val_read : ℕ

pub data Parse : Type 0 where
  doc : ReadDoc → Parse
  unread : ReadErr → Parse

-- The yyjson_read_flag bits that the extension sets. Comments, trailing commas and a byte order
-- mark go together.
pub record ReadFlags : Type 0 where
  pub number_as_raw : Bool
  pub bignum_as_raw : Bool
  pub validate_only : Bool
  pub allow_invalid_unicode : Bool
  pub relaxed : Bool
  pub allow_inf_and_nan : Bool

-- The decode flags that reading depends on.
pub record DecodeFlags : Type 0 where
  pub bigint_as_string : Bool
  pub ignore : Bool
  pub subst : Bool
  pub relaxed : Bool
  pub throw_on_error : Bool

-- The extra flags of the callers.
pub data Extra : Type 0 where
  no_extra number_as_raw validate_only : Extra

abbrev pub is_raw : Extra → Bool
is_raw Extra.number_as_raw = true
is_raw no_extra = false
is_raw Extra.validate_only = false

abbrev pub is_validate : Extra → Bool
is_validate Extra.validate_only = true
is_validate no_extra = false
is_validate Extra.number_as_raw = false

unfoldable pub read_flags : DecodeFlags → Extra → ReadFlags
read_flags flags extra = record {
  number_as_raw = is_raw extra;
  bignum_as_raw = flags.bigint_as_string;
  validate_only = is_validate extra;
  allow_invalid_unicode = flags.ignore || flags.subst;
  relaxed = flags.relaxed;
  allow_inf_and_nan = false;
}

-- The loops over a line comment and over a block comment: the bytes from where they stop.
unfoldable pub skip_line : Bytes → Bytes
skip_line [] = []
skip_line (c ∷ t) = let rest = skip_line t in if c == b'\n' || c == b'\r' then c ∷ t else rest

unfoldable pub skip_block : Bytes → Bytes
skip_block [] = []
skip_block (c ∷ []) = c ∷ []
skip_block (c ∷ d ∷ t) =
    let rest = skip_block (d ∷ t) in if c == b'*' && d == b'/' then c ∷ d ∷ t else rest

-- `c | 0x20`
abbrev pub lower : ℕ → ℕ
lower c = if c / 0x20 % 2 == 1 then c else c + 0x20

-- The three letters at the head, in either case.
abbrev pub is_word : ℕ → ℕ → ℕ → Bytes → Bool
is_word a b c s =
    leb 3 (length s)
    && lower (get_or s 0 0) == a
    && lower (get_or s 1 0) == b
    && lower (get_or s 2 0) == c

-- A round of the scan over `c ∷ t`: a literal, or the state and the bytes of the next round.
pub data Scan : Type 0 where
  literal : Scan
  next : (in_str escape : Bool) → Bytes → Scan

unfoldable pub scan_round : (allow_comments in_str escape : Bool) → ℕ → Bytes → Scan
unfolding skip_line skip_block
scan_round allow_comments true true c t = next true false t
scan_round allow_comments true false c t =
    if c == b'\\'
    then next true true t
    else if c == b'"'
    then next false false t
    else next true false t
scan_round allow_comments false escape c t =
    if allow_comments && c == b'/' && leb 1 (length t) && get_or t 0 0 == b'/'
    then next false escape (drop 1 (skip_line (drop 1 t)))
    else if allow_comments && c == b'/' && leb 1 (length t) && get_or t 0 0 == b'*'
    then next false escape (drop 2 (skip_block (drop 1 t)))
    else if c == b'"'
    then next true escape t
    else if is_word b'i' b'n' b'f' (c ∷ t) || is_word b'n' b'a' b'n' (c ∷ t)
    then literal
    else next false escape t

-- The loop; every round goes on by a byte at least, so the length is fuel enough.
unfoldable pub inf_nan_loop : ℕ → (allow_comments in_str escape : Bool) → Bytes → Bool
inf_nan_loop fuel allow_comments in_str escape [] = false
inf_nan_loop zero allow_comments in_str escape (c ∷ t) = false
inf_nan_loop (suc n) allow_comments in_str escape (c ∷ t) =
    elim (scan_round allow_comments in_str escape c t) [
      | literal ↦ true
      | next in_str' escape' rest ↦ inf_nan_loop n allow_comments in_str' escape' rest
    ]

-- fastjson_input_has_inf_nan_literal
unfoldable pub input_has_inf_nan_literal : Bytes → (allow_comments : Bool) → Bool
unfolding inf_nan_loop scan_round
input_has_inf_nan_literal s allow_comments = inf_nan_loop (length s) allow_comments false false s

abbrev pub is_invalid_number : ReadCode → Bool
is_invalid_number invalid_number = true
is_invalid_number success = false
is_invalid_number invalid_string = false
is_invalid_number invalid_parameter = false
is_invalid_number (another n) = false

-- The retry with Inf and NaN allowed.
unfoldable pub retry : (parse : ReadFlags → Bytes → Parse) → ReadFlags → Bytes → Parse → Parse
retry parse yflags json (doc d) = doc d
retry parse yflags json (unread err) =
    if is_invalid_number err.code && not (input_has_inf_nan_literal json yflags.relaxed)
    then parse (record yflags { allow_inf_and_nan = true }) json
    else unread err

-- A malformed byte at the error's position makes the error one of UTF-8.
unfoldable pub reclassify : Bytes → Parse → Parse
reclassify json (doc d) = doc d
reclassify json (unread err) =
    if ltb err.pos (length json)
      && leb 0x80 (get_or json err.pos 0)
      && not (byte_is_valid_utf8_start (drop err.pos json))
    then unread (record err { code = invalid_string })
    else unread err

-- fastjson_read_doc_ex
unfoldable pub read_doc_ex :
    (parse : ReadFlags → Bytes → Parse) → Bytes → DecodeFlags → Extra → Parse
unfolding retry reclassify read_flags
read_doc_ex parse json flags extra =
    reclassify json
      (retry parse (read_flags flags extra) json (parse (read_flags flags extra) json))
