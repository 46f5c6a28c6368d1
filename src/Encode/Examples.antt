-- ===== src/Encode/Examples.antt =====
-- Runs of the encoder of fastjson_directwrite.c and of the functions of fastjson_encode.c.
use fastjson.Prelude.{
  ℕ, ◌+◌, ◌*◌, Bool, true, false, ◌&&◌, none, some, [], ◌∷◌, ◌++◌, ◌≡◌, refl, Bytes, codes, leb,
  length, take, if◌then◌else◌, Option,
}
use fastjson.Doc.{bytes_eq}
use fastjson.StringWriter.{wants_sized_writer}
use fastjson.Splice.{is_finite, append_newline_indent}
use fastjson.StringWriter.Large.{quoted}
use fastjson.Errors.{cleared, error_inf_or_nan, returned}
use fastjson.Entry.{pos}
use fastjson.Zval.{
  Zval, null, long, double, array, object, Table, end, entry, index, name, Globals, props, slot,
  slots_end, value, unreadable,
}
use fastjson.Encoder.{Setting, Ctx, EncodeFlags, not_numeric}
use fastjson.Encoder.Emit.{encode_zval}
use fastjson.Encoder.Balance.{Same}
use fastjson.Encoder.Emits.{encode_zval-Same}
use fastjson.Encode.{start_ctx, Outcome, reply, encode, encode_depth_in_range}
use fastjson.Encode.Partial.{PartialOutcome, encode-Partial}
use fastjson.Encode.Strict.{StrictOutcome, encode-Strict}
use fastjson.Encode.Writes.{Stream, write_and_close}
use fastjson.Encode.Delivers.{Logged, write_and_close-log}

-- Keys 0, 1, … in their order.
abbrev list_from : ℕ → Table → Bool
list_from n end = true
list_from n (entry (index i) z rest) = leb i n && leb n i && list_from (n + 1) rest
list_from n (entry (name k) z rest) = false

abbrev some_flags : (pretty partial : Bool) → EncodeFlags
some_flags pretty partial = record {
  hex = record { tag = false; amp = false; apos = false; quot = false };
  force_object = false;
  numeric_check = false;
  unescaped_slashes = true;
  unescaped_unicode = true;
  pretty_print = pretty;
  partial_output = partial;
  preserve_zero_fraction = false;
  ignore = false;
  subst = false;
}

-- A writer that quotes, and numbers of one digit.
abbrev pub setting : (pretty partial : Bool) → Setting
setting pretty partial = record {
  env = record {
    max_len = 1000000;
    grow = λ room len. if leb len room then room else len;
    project = λ left written read. 2 * left;
    write_string = λ flags s. some (quoted s);
  };
  flags = some_flags pretty partial;
  write_sint = λ n. (48 + n) ∷ [];
  write_real = λ d. none;
  gcvt = λ d precision. [];
  double_max_length = 64;
  long_to_str = λ n. (48 + n) ∷ [];
  numeric = λ t. not_numeric;
  array_is_list = list_from 0;
  has_native_stack_limit = true;
  overflowed = λ depth. false;
}

abbrev no_globals : Globals
no_globals = record { last_err = cleared; precision = none }

-- [1, {"a": null}], where the object has a property that is skipped.
abbrev nested : Zval
nested = array (some 1) (
    entry (index 0) (long 1) (
      entry (index 1)
        (object (
          props (λ g. g) (some 2)
            (slot (name (0 ∷ 65 ∷ [])) (value (long 5)) (
              slot (name (codes "b")) unreadable
                (slot (name (codes "a")) (value null) slots_end)))))
        end))

abbrev infinity : ℕ
infinity = 9218868437227405312

-- An array that holds itself, and an infinite number behind that.
abbrev cyclic : Zval
cyclic =
    array (some 1) (entry (index 0) (array (some 1) end) (entry (index 1) (double infinity) end))

abbrev run : (pretty partial : Bool) → Zval → Outcome (Option Bytes) × Globals
run pretty partial z = encode (setting pretty partial) false z (pos 512) [] no_globals

abbrev text_of : Outcome (Option Bytes) × Globals → Bytes
text_of (reply (returned (some t)), g) = t
text_of (outcome, g) = []

abbrev error_of : Outcome (Option Bytes) × Globals → ℕ
error_of (outcome, g) = g.last_err.code

compact_text : bytes_eq (text_of (run false false nested)) (codes "[1,{\"a\":null}]") ≡ true
unfolding encode bytes_eq wants_sized_writer
compact_text = refl

pretty_text :
    bytes_eq
      (text_of (run true false nested))
      (codes "[\n    1,\n    {\n        \"a\": null\n    }\n]")
    ≡ true
unfolding encode bytes_eq wants_sized_writer append_newline_indent
pretty_text = refl

cyclic_text : bytes_eq (text_of (run false true cyclic)) (codes "[null,0]") ≡ true
unfolding encode bytes_eq is_finite
cyclic_text = refl

cyclic_error : error_of (run false true cyclic) ≡ error_inf_or_nan
unfolding encode is_finite
cyclic_error = refl

strict_error : error_of (run false false cyclic) ≡ 6
unfolding encode
strict_error = refl

encode-Partial_example :
    PartialOutcome (encode (setting false true) true cyclic (pos 512) [] no_globals)
unfolding encode_depth_in_range
encode-Partial_example =
    encode-Partial (setting false true) refl true cyclic (pos 512) [] no_globals refl

encode-Strict_example :
    StrictOutcome true cleared (encode (setting false false) true cyclic (pos 512) [] no_globals)
unfolding encode_depth_in_range
encode-Strict_example =
    encode-Strict (setting false false) refl true cyclic (pos 512) [] no_globals refl

abbrev start : Ctx
start = start_ctx (setting true false) [] no_globals

encode_zval-Same_example : Same start (encode_zval (setting true false) cyclic 9 start).1
encode_zval-Same_example = encode_zval-Same (setting true false) cyclic 9 start

-- A stream that takes three bytes at most, with the bytes it took as its state.
abbrev least : ℕ → Bytes → ℕ
least n t = if leb n (length t) then n else length t

abbrev three_bytes : Stream Bytes
three_bytes = record {
  write = λ st t. (pos (least 3 t), st ++ take (least 3 t) t);
  can_flush = true;
  flush = λ st. (pos 0, st);
  close = λ st. (pos 0, st);
  threw = λ st. false;
}

abbrev kept : Logged Bytes three_bytes
kept = record {
  log = λ st. st;
  log-write = λ st t. refl;
  log-flush = λ st. refl;
  log-close = λ st. refl;
}

wrote_all : (write_and_close three_bytes (codes "[1,2,3]") []).0 ≡ true
unfolding write_and_close
wrote_all = refl

write_and_close-log_example :
    (write_and_close three_bytes (codes "[1,2,3]") []).1 ≡ [] ++ codes "[1,2,3]"
write_and_close-log_example = write_and_close-log three_bytes kept (codes "[1,2,3]") [] wrote_all
