-- ===== src/Lib.antt =====
-- fastjson: JSON encoding, decoding, validation, JSON pointers and merge patches for PHP.
--
-- The program parses a document with the vendored parser (vendor/yyjson), and then either walks
-- the tree into PHP values, looks into it with a JSON pointer, edits it, or merges another
-- document into it. Strings that are not UTF-8 pass through a validator and two sanitizers.
-- Paths below are from the root of the repository; a C loop over a buffer is a function of the
-- bytes that are left, and a C `size_t` is a natural number.
--
-- Prelude, with Tests and Lists: shared names, Boolean tests, and lists of bytes.
-- Doc: a parsed document, as the extension reads it through the parser's accessors. The parser
--   itself is not modelled: every document of the type is one that an operation must handle.
-- Utf8: fastjson_sanitize_utf8, fastjson_utf8_well_formed and fastjson_byte_is_valid_utf8_start
--   of fastjson.c. Table is the table of well-formed sequences of the Unicode standard, Steps
--   relates a round of the loops to it, Checks is about the two validators and Sanitize about
--   the sanitizer. The loops run on fuel as long as the input, since every round goes on by at
--   least one byte.
-- HexEscapes: fastjson_apply_hex_escapes of fastjson.c, which rewrites a string that was just
--   written. Tokens is the string's grammar, Passes and Growth are about its two loops, Rewrite
--   about the function. The first loop runs on fuel as long as the string; positions in the
--   output buffer are left out, so the second loop is a list function.
-- Location: fastjson_locate_ascii_pos of fastjson.c, the line and column of a read error. Its
--   first loop runs on fuel as long as the offset. Rounds is about the two loops, Lines counts
--   byte after byte.
-- StringWriter: the writer of large strings of fastjson.c (fastjson_string_is_copyable_ascii,
--   fastjson_json_string_size) with Chunks (fastjson_json_chunk_len and
--   fastjson_write_json_string_chunked) and Large (fastjson_write_large_json_string). A word of
--   eight bytes is tested as its bytes. Each loop runs on fuel as long as the string. Laws says what
--   the code relies on of the one-pass writer of the library; Runs, Sizes, Rounds and Appends are
--   about the scans, the measuring loop, the chunks and the whole.
-- Pointer: the grammar of RFC 6901 in fastjson_pointer_splice.c (fastjson_pointer_count_segments,
--   fj_pointer_fill_segments, fj_pointer_nsegs_ok, fj_pointer_parse). Cut is the recursive
--   description of a pointer's segments, Segments, Escapes and Parse compare the code with it,
--   and RoundTrip writes a pointer and parses it.
-- Pointer/Index: fj_seg_is_index, whose value is a 64-bit `size_t` with its overflow checks
--   written out, and fj_write_uint64_dec of fastjson_decode.c.
-- Pointer/Walk: fj_seg_key_eq, fj_pointer_walk, fastjson_pointer_plan_init and
--   fastjson_pointer_resolve_limited. Resolves, Ambiguity and Limited state what a walk means as
--   a relation on documents.
-- Splice: the splice writer of fastjson_pointer_splice.c, which writes a document with one value
--   replaced: its state and the writers of strings, numbers and raw numbers, Full
--   (fj_splice_write_full and the loops over arrays and objects), Edit
--   (fj_splice_write_replacement, fj_splice_build_suffix, fj_splice_write_array,
--   fj_splice_write_object, fj_splice_write_at and fastjson_imut_pointer_set_write). A writer takes
--   the mutable fields of fj_splice_ctx and returns them with the truth value of the C function.
--   SetAt is the edit as a function on documents, NoPlace where it makes none. Steps and Wholes
--   compare writers where they succeed; MemberSteps, ObjectEdits, ArrayEdits, Refines and
--   Document compare the writer with the edit; RoundTrip walks the document that was written;
--   Moves, Containers and Appends are about the context that a run leaves. The level of
--   indentation is a natural number, not a C int, and the capacity after a rewrite of HEX escapes
--   is what the allocator's parameter gives.
-- Depth: fastjson_val_depth_reaches of fastjson_decode.c, a loop over a stack of iterators. Its
--   fuel is the number of rounds it makes: one for each value below the root and one for the end
--   of each container. Height is the recursive description, Loop is about the loop.
-- Merge: fj_merge_copy_checked, fj_merge_has_duplicate_keys, fj_merge_index_init,
--   fastjson_merge_patch_linear, fastjson_merge_patch_indexed and fastjson_merge_patch_bounded of
--   fastjson_decode.c. The recursion is on the depth that remains, as in the code. Entries is about
--   members and their names, Patch is RFC 7396 as rounds of assignments with Order and Rounds
--   about the order of the members, Limits is about the depth limit, Indexed compares the two
--   paths, and Refines compares the merge with the RFC.
-- Reading: fastjson_read_doc_ex of fastjson_decode.c and fastjson_input_has_inf_nan_literal of
--   fastjson.c. A parser is a parameter, and so is what it says of a document it cannot read. The
--   scan runs on fuel as long as the input, since every round goes on by at least one byte. Tokens
--   says where a literal stands in a text, Literals is about the scan without comments and Retry
--   about when a document is read.
-- Errors: the recorded error of php_fastjson.h and fastjson.c (fastjson_set_read_error,
--   fastjson_clear_error, fastjson_set_error_code, fastjson_throw_error, fastjson_throw_mode_init)
--   and fj_splice_dispatch_error of fastjson_decode.c. A call takes the recorded error and returns
--   its reply with the one that it leaves.
-- Entry: fastjson_pointer_exists, fastjson_validate and the fastjson_last_error functions. Modes is
--   about the throwing mode, Exists about the result, Validates about what is recorded after a
--   validation, WellFormed about the fields of the recorded error.
-- KeyCache: the table of object keys of fastjson_decode.c (fj_share_key_slow, fj_share_key,
--   fj_key_share_push, and the loop of fj_key_share_pop). The slots are a function of their index.
--   Transparent is about the strings that it gives, Slots about the table.
-- Walk: the walk of fastjson_walk.inc from a document to a PHP value, with fj_num_to_zval,
--   fj_raw_to_zval and fj_write_sint64_dec of fastjson_decode.c. It recurses on the document and
--   threads the cache of keys. Build is the value that a document stands for, Limits and Refines
--   compare the walk with it, Lookup is about duplicate members.
-- Decode: fastjson_decode, fastjson_pointer_get and fastjson_merge_patch of fastjson_decode.c, with
--   fastjson_walk_doc_into, fastjson_finish_decode and fastjson_decode_into. Values follows a call
--   from the document to the value and the recorded error. Set is fastjson_pointer_set with
--   fastjson_pointer_build_replacement, Scalars the values that need no encoder, Sets what it
--   returns for those, and Files is fastjson_file_decode with fastjson_read_stream, whose fuel
--   bounds the reads of a stream.
-- Zval: PHP values as the encoder reads them; what userland code gives stands in them as data.
-- Encoder: fastjson_directwrite.c, as steps that carry fastjson_dw_ctx. Strings and Numbers are
--   the values without children, Discard the walk behind a hard error (dw_discard_zval), Emit the
--   walk that writes (dw_encode_zval, dw_emit_array, dw_emit_object_props,
--   dw_emit_jsonserializable). It recurses on the value. Balance, Leaves, Restores,
--   Bodies, Containers and Emits are about what a step leaves as it was and why it may stop; Marks,
--   Clean, Strict and Succeeds about the error behind a run without partial output.
-- Encode: fastjson_directwrite_encode, and fastjson_do_encode, fastjson_encode and
--   fastjson_file_encode of fastjson_encode.c. Writes is the write of a file, whose loop runs on
--   fuel as long as the text, since every round but the last writes a byte at least; Delivers is
--   about what the file holds after it, Partial about PARTIAL_OUTPUT_ON_ERROR, Strict about calls
--   without it.
-- Each Examples module holds runs on concrete inputs.
--
-- Memory is taken to be there: no allocation fails, so a plan of segments or a copied tree is a
-- value. The stack check of the engine, zend_call_stack_overflowed, is a parameter, as are the number
-- and string writers of the vendored library, the hash tables, number conversions and streams of
-- the engine. The encoder is that of PHP 8.4 with a 64-bit zend_long. A value with cycles is
-- unrolled: a container carries its address, and under one that is visited again nothing is read.
-- Not modelled are the bailouts of the engine, the allocator shim, the module's start-up, and the
-- generated argument tables.
pub mod Prelude
pub mod Doc
pub mod Utf8
pub mod HexEscapes
pub mod Location
pub mod StringWriter
pub mod Pointer
pub mod Splice
pub mod Depth
pub mod Merge
pub mod Reading
pub mod Errors
pub mod Entry
pub mod KeyCache
pub mod Zval
pub mod Encoder
pub mod Encode
pub mod Walk
pub mod Decode
