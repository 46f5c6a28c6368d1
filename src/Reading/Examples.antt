-- ===== src/Reading/Examples.antt =====
-- Runs of the scan for a literal Inf or NaN of fastjson.c.
use fastjson.Prelude.{true, false, some, Bytes, codes, if◌then◌else◌, ◌≡◌, ◌↔◌, refl}
use fastjson.Doc.{arr, nil}
use fastjson.Reading.{
  input_has_inf_nan_literal, ReadErr, ReadDoc, ReadFlags, DecodeFlags, Parse, doc, unread,
  invalid_number, no_extra, read_doc_ex,
}
use fastjson.Reading.Tokens.{outside, Reach, Literal}
use fastjson.Reading.Literals.{input_has_inf_nan_literal_iff}
use fastjson.Reading.Retry.{Reads, read_doc_ex_iff}

overflow_only : input_has_inf_nan_literal (codes "[1e999,\"inf\\\"nan\"]") false ≡ false
unfolding input_has_inf_nan_literal
overflow_only = refl

bare_literal : input_has_inf_nan_literal (codes "[\"\",-Inf]") false ≡ true
unfolding input_has_inf_nan_literal
bare_literal = refl

in_comments : input_has_inf_nan_literal (codes "/* inf \" */[1]// nan") true ≡ false
unfolding input_has_inf_nan_literal
in_comments = refl

input_has_inf_nan_literal_iff_example :
    (input_has_inf_nan_literal (codes "\"\"-Inf") false ≡ true)
    ↔ ((u : Bytes) × Reach outside (codes "\"\"-Inf") u × Literal u)
input_has_inf_nan_literal_iff_example = input_has_inf_nan_literal_iff (codes "\"\"-Inf")

abbrev bad_number : ReadErr
bad_number = record { code = invalid_number; msg = some (codes "number is infinity"); pos = 2 }

abbrev infinite : ReadDoc
infinite = record { root = arr nil; val_read = 2 }

-- A parser that refuses an overflow unless Inf and NaN are allowed.
abbrev overflows : ReadFlags → Bytes → Parse
overflows flags json = if flags.allow_inf_and_nan then doc infinite else unread bad_number

abbrev strict : DecodeFlags
strict = record {
  bigint_as_string = false;
  ignore = false;
  subst = false;
  relaxed = false;
  throw_on_error = false;
}

retried : read_doc_ex overflows (codes "[1e999]") strict no_extra ≡ doc infinite
unfolding read_doc_ex input_has_inf_nan_literal
retried = refl

not_retried : read_doc_ex overflows (codes "[1e999,NaN]") strict no_extra ≡ unread bad_number
unfolding read_doc_ex input_has_inf_nan_literal
not_retried = refl

read_doc_ex_iff_example :
    (read_doc_ex overflows (codes "[1e999]") strict no_extra ≡ doc infinite)
    ↔ Reads overflows (codes "[1e999]") strict no_extra infinite
read_doc_ex_iff_example = read_doc_ex_iff overflows (codes "[1e999]") strict no_extra infinite refl
