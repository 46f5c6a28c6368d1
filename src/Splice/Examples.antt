-- ===== src/Splice/Examples.antt =====
-- Runs of the splice writer of fastjson_pointer_splice.c.
use fastjson.Prelude.{
  ℕ, ◌*◌, Bool, true, false, not, none, some, ◌≡◌, refl, Bytes, codes, ◌==◌, leb, if◌then◌else◌,
}
use fastjson.Doc.{Val, null, bool, str, arr, obj, nil, item, end, member, bytes_eq}
use fastjson.Pointer.{
  Status, Plan, Parsed, planned, plan_keys, pointer_parse, empty_plan, settable_fail, nsegs_ok,
  count_segments, fill_segments,
}
use fastjson.Pointer
use fastjson.Pointer.Index.{seg_is_index}
use fastjson.Pointer.Walk.{no_utf8_flags, seg_key_eq, pointer_walk, reached}
use fastjson.StringWriter.{wants_sized_writer, byte_needs_escape}
use fastjson.StringWriter.Large.{quoted}
use fastjson.Splice.{
  newline_indent, Ctx, Setting, stack_ok, text, write_string, Replacement, value, encoded,
}
use fastjson.Splice.Full.{write_full, write_items, separator, colon, open_bracket, close_bracket}
use fastjson.Splice.Edit.{SetResult, written, failed, start_ctx, imut_pointer_set_write}
use fastjson.Splice.SetAt.{set_at, name}
use fastjson.Splice.Steps.{success, given}
use fastjson.Splice.RoundTrip.{imut_pointer_set_write-pointer_walk}
use fastjson.Splice.Moves.{After, same_indent}
use fastjson.Splice.Appends.{write_full-After}
use fastjson.StringWriter.Examples.{
  small_env, small_laws, default_flags, escape, onto, escape_all, in_quotes,
}
use fastjson.Splice.Document.{text_of, bytes_of, imut_pointer_set_write-set_at}

-- A one-pass writer that quotes, and no flags.
abbrev pub plain_setting : Bool → Setting
plain_setting pretty = record {
  env = record {
    max_len = 1000000;
    grow = λ room len. if leb len room then room else len;
    project = λ left written read. 2 * left;
    write_string = λ flags s. some (quoted s);
  };
  yflags = record { slashes = true; unicode = false };
  hex = record { tag = false; amp = false; apos = false; quot = false };
  pretty = pretty;
  write_number = λ n. none;
  strtod_is_finite = λ t. true;
  overflowed = λ r. false;
}

-- {"a":[null,true],"b":false}
abbrev two_members : Val
two_members = obj (
    member (name (codes "a")) (arr (item null (item (bool true) nil)))
      (member (name (codes "b")) (bool false) end))

abbrev parsed_plan : Parsed → Plan
parsed_plan (planned plan) = plan
parsed_plan (Parsed.failed status) = empty_plan

abbrev plan_at : Bytes → Plan
plan_at pointer = parsed_plan (pointer_parse pointer 100 settable_fail)

abbrev set_compact : Bytes → Replacement → SetResult
set_compact pointer new =
    imut_pointer_set_write (plain_setting false) 18446744073709551615 new two_members
      (plan_at pointer) 100

sets_element :
    set_compact (codes "/a/1") (encoded (codes "[0]"))
    ≡ written (codes "{\"a\":[null,[0]],\"b\":false}")
unfolding imut_pointer_set_write pointer_parse separator colon open_bracket close_bracket
    write_items write_string nsegs_ok count_segments Pointer.plan_of fill_segments stack_ok text
    seg_key_eq bytes_eq wants_sized_writer seg_is_index
sets_element = refl

adds_members :
    set_compact (codes "/c/d") (value (bool true))
    ≡ written (codes "{\"a\":[null,true],\"b\":false,\"c\":{\"d\":true}}")
unfolding imut_pointer_set_write pointer_parse separator colon open_bracket close_bracket
    write_items write_string nsegs_ok count_segments Pointer.plan_of fill_segments stack_ok text
    seg_key_eq bytes_eq wants_sized_writer seg_is_index
adds_members = refl

no_element : set_compact (codes "/a/2") (value null) ≡ failed settable_fail
unfolding imut_pointer_set_write pointer_parse separator colon open_bracket close_bracket
    write_items write_string nsegs_ok count_segments Pointer.plan_of fill_segments stack_ok text
    seg_key_eq bytes_eq wants_sized_writer seg_is_index
no_element = refl

imut_pointer_set_write-set_at_example :
    text_of (
      imut_pointer_set_write
        (plain_setting true)
        18446744073709551615
        (value (bool true))
        two_members
        (plan_at (codes "/a/1"))
        100)
    ≡ bytes_of (
        success (
          given
            (set_at 18446744073709551615
              (plan_keys (plan_at (codes "/a/1")))
              (bool true)
              two_members)
            (λ e. write_full (plain_setting true) e 100)
            (start_ctx
              (plain_setting true)
              18446744073709551615
              (value (bool true))
              (not ((plan_at (codes "/a/1")).nsegs == 0)))))
unfolding pointer_parse nsegs_ok count_segments Pointer.plan_of fill_segments
imut_pointer_set_write-set_at_example =
    imut_pointer_set_write-set_at (plain_setting true) (λ r. refl) 18446744073709551615 (bool true)
      (plan_at (codes "/a/1")) two_members 100 refl

-- {"a":[null,true],"b":false,"c":{"d":true}}
abbrev added : Bytes
added = codes "{\"a\":[null,true],\"b\":false,\"c\":{\"d\":true}}"

imut_pointer_set_write-pointer_walk_example :
    (e : Val) × (pointer_walk 18446744073709551615 no_utf8_flags false e
        (plan_keys (plan_at (codes "/c/d")))
      ≡ reached (bool true))
    × (bytes_of (
          success (
            write_full (plain_setting false) e 100 (
              start_ctx
                (plain_setting false)
                18446744073709551615
                (value (bool true))
                (not ((plan_at (codes "/c/d")).nsegs == 0)))))
        ≡ some added)
unfolding pointer_parse nsegs_ok count_segments Pointer.plan_of fill_segments
imut_pointer_set_write-pointer_walk_example =
    imut_pointer_set_write-pointer_walk (plain_setting false) (λ r. refl) 18446744073709551615
      (bool true) (plan_at (codes "/c/d")) two_members 100 added refl adds_members

-- The one-pass writer of the examples of the string writer.
abbrev escaping_setting : Setting
escaping_setting = record (plain_setting true) { env = small_env; yflags = default_flags }

abbrev indented : ℕ → Bytes → Ctx
indented room t = record {
  buf = record { bytes = t; room = room };
  indent = 1;
  status = Status.ok;
  settable = true;
}

write_full-After_example :
    After same_indent
      (indented 16 (codes "[1,"))
      (indented 33 (codes "[1,[\n        \"a\\/b\"\n    ]"))
unfolding write_items separator open_bracket close_bracket write_string stack_ok text
    wants_sized_writer escape_all in_quotes escape onto newline_indent byte_needs_escape
write_full-After_example =
    write_full-After escaping_setting small_laws (arr (item (str (name (codes "a/b"))) nil)) 5
      (indented 16 (codes "[1,")) (indented 33 (codes "[1,[\n        \"a\\/b\"\n    ]")) refl
