-- ===== src/Decode.antt =====
-- PHP functions that give PHP values: fastjson_decode, fastjson_pointer_get and fastjson_merge_patch
-- of fastjson_decode.c, over the walk of fastjson_walk.inc. An allocation does not fail. An argument
-- that is of another type is refused before the function runs.
pub mod Values
pub mod Set
pub mod Scalars
pub mod Sets
pub mod Files
mod Examples
use fastjson.Prelude.{
  ℕ, ◌+◌, Bool, true, false, ◌||◌, Option, none, some, Bytes, codes, length, ltb, leb, ◌==◌,
  if◌then◌else◌, min,
}
use fastjson.Doc.{Val}
use fastjson.Reading.{ReadDoc, Parse, doc, unread, DecodeFlags, no_extra, read_doc_ex}
use fastjson.Pointer.{Status}
use fastjson.Pointer.Walk.{resolve_limited}
use fastjson.Merge.{merge_patch_bounded}
use fastjson.KeyCache.{key_share_push}
use fastjson.Errors.{
  ErrorState, error_state_set, cleared, error_depth, error_none, Reply, returned, thrown,
  value_error, Run, throw_mode_init, throw_error, read_failed, dispatch_error, message,
}
use fastjson.Entry.{Library, ℤ, pos, negsuc, int_max, utf8_flags, is_refused}
use fastjson.Zval.{Key}
use fastjson.Walk.{
  Decoded, null, Fields, Setting, Failure, too_deep, invalid_name, Result, made, failed, Cache,
  walk,
}

-- The vendored library, the engine as a walk sees it (a call puts its own `$associative` and flags
-- into the settings), whether it reports the limit of the C stack, and yyjson_doc_get_read_size.
pub record Engine : Type 0 where
  pub lib : Library
  pub walking : Setting
  pub has_native_stack_limit : Bool
  pub read_size : ReadDoc → ℕ

-- The arguments of a decode call behind the text: `$associative`, `none` for null, whether the
-- flags have OBJECT_AS_ARRAY, the depth and the other flags.
pub record Options : Type 0 where
  pub associative : Option Bool
  pub object_as_array : Bool
  pub depth : ℤ
  pub flags : DecodeFlags

abbrev pub stack_depth_limit : ℕ
stack_depth_limit = 1024

-- fastjson_effective_stack_depth and fastjson_effective_walk_depth
unfoldable pub effective_walk_depth : Engine → ℕ → ℕ
effective_walk_depth e depth =
    if e.has_native_stack_limit
    then depth
    else if ltb stack_depth_limit depth
    then stack_depth_limit
    else depth

abbrev pub use_assoc : Options → Bool
use_assoc o = elim o.associative [ none ↦ o.object_as_array | some b ↦ b ]

-- The settings of the walk of a call.
abbrev pub walk_setting : Engine → Options → Setting
walk_setting e o = record e.walking { assoc = use_assoc o; flags = o.flags }

-- fastjson_set_error_code with what the walk records.
abbrev pub error_invalid_property_name : ℕ
error_invalid_property_name = 9

abbrev pub depth_message : Bytes
depth_message = codes "Maximum stack depth exceeded"

unfoldable pub walk_error : Failure → ErrorState
walk_error too_deep = error_state_set error_depth (some depth_message)
walk_error invalid_name =
    error_state_set error_invalid_property_name
      (some (codes "The decoded property name is invalid"))

-- fastjson_throw_current_error behind a walk that failed, or the recorded error and null.
unfoldable pub walk_failed :
    (throw_mode : Bool)
    → (fallback : Bytes) → (saved : ErrorState) → Failure
    → Reply Decoded × ErrorState
unfolding walk_error throw_error
walk_failed true fallback saved e =
    throw_error (walk_error e).code (walk_error e).msg (some fallback) saved
walk_failed false fallback saved e = (returned null, walk_error e)

-- The depth of a call, from 1 to INT_MAX (FASTJSON_VALIDATE_DEPTH and fastjson_entry_prologue).
unfoldable pub valid_depth : ℤ → Option ℕ
valid_depth (negsuc n) = none
valid_depth (pos n) = if n == 0 || ltb int_max n then none else some n

module _ (e : Engine) where
  abbrev pub walked : Options → ℕ → (read_size : ℕ) → Val → Result Decoded × Cache
  walked o depth read_size v =
      walk (walk_setting e o) v (effective_walk_depth e depth) (key_share_push read_size)

  -- fastjson_walk_doc_into and fastjson_finish_decode, of what the walk gave.
  unfoldable pub finish :
      Options → (saved : ErrorState) → Result Decoded → Reply Decoded × ErrorState
  unfolding walk_failed
  finish o saved (failed f) = walk_failed o.flags.throw_on_error depth_message saved f
  finish o saved (made z) = (returned z, if o.flags.throw_on_error then saved else cleared)

  -- fastjson_decode_into
  unfoldable pub decode_into :
      Options → Bytes → ℕ → (saved : ErrorState) → Parse → Reply Decoded × ErrorState
  unfolding finish read_failed walk effective_walk_depth
  decode_into o json depth saved (unread err) =
      read_failed e.lib.locate_pos o.flags.throw_on_error saved json err null
  decode_into o json depth saved (doc d) = finish o saved (walked o depth (e.read_size d) d.root).0

  -- fastjson_decode
  unfoldable pub decode : Bytes → Options → Run Decoded
  unfolding throw_mode_init decode_into valid_depth
  decode json o saved = elim (valid_depth o.depth) [
    | none ↦ (value_error, throw_mode_init o.flags.throw_on_error saved)
    | some depth ↦ decode_into o json depth saved (read_doc_ex e.lib.parse json o.flags no_extra)
  ]

  -- fastjson_pointer_get, of the target of a pointer that was not refused.
  unfoldable pub get_target :
      Options → ℕ → (saved : ErrorState) → (read_size : ℕ) → Option Val → Reply Decoded × ErrorState
  unfolding finish walk effective_walk_depth
  get_target o depth saved read_size none = (returned null, cleared)
  get_target o depth saved read_size (some v) = finish o saved (walked o depth read_size v).0

  unfoldable pub get_resolved :
      Options
      → ℕ
      → (saved : ErrorState) → (read_size : ℕ) → Status × Option Val
      → Reply Decoded × ErrorState
  unfolding get_target dispatch_error
  get_resolved o depth saved read_size (status, target) =
      if is_refused status
      then dispatch_error status o.flags.throw_on_error saved null
      else get_target o depth saved read_size target

  unfoldable pub get_into :
      Options
      → (json pointer : Bytes) → ℕ
      → (saved : ErrorState) → Parse
      → Reply Decoded × ErrorState
  unfolding get_resolved read_failed effective_walk_depth
  get_into o json pointer depth saved (unread err) =
      read_failed e.lib.locate_pos o.flags.throw_on_error saved json err null
  get_into o json pointer depth saved (doc d) = get_resolved o depth saved (e.read_size d) (
      resolve_limited e.lib.size_max d.root pointer (effective_walk_depth e depth)
        (utf8_flags o.flags))

  unfoldable pub pointer_get : (json pointer : Bytes) → Options → Run Decoded
  unfolding throw_mode_init get_into valid_depth
  pointer_get json pointer o saved = elim (valid_depth o.depth) [
    | none ↦ (value_error, throw_mode_init o.flags.throw_on_error saved)
    | some depth ↦
        get_into o json pointer depth saved (read_doc_ex e.lib.parse json o.flags no_extra)
  ]

  -- fastjson_merge_patch, of the walk of the merged document; `none` where the merge was too deep.
  unfoldable pub merge_finish :
      Options → (saved : ErrorState) → Option (Result Decoded) → Reply Decoded × ErrorState
  unfolding walk_failed
  merge_finish o saved none = walk_failed o.flags.throw_on_error depth_message saved too_deep
  merge_finish o saved (some (failed f)) =
      walk_failed o.flags.throw_on_error (codes "fastjson_merge_patch failed") saved f
  merge_finish o saved (some (made z)) =
      (returned z, if o.flags.throw_on_error then saved else cleared)

  abbrev pub walk_merged : Options → ℕ → (len : ℕ) → Option Val → Option (Result Decoded)
  walk_merged o depth len none = none
  walk_merged o depth len (some v) = some (walked o depth len v).0

  -- `overflowed` is the test of the C stack inside the merge.
  unfoldable pub merge_docs :
      (overflowed : ℕ → Bool)
      → Options
      → (target patch : Bytes) → ℕ
      → (saved : ErrorState) → ReadDoc
      → Parse
      → Reply Decoded × ErrorState
  unfolding merge_finish read_failed walk effective_walk_depth
  merge_docs overflowed o target patch depth saved t (unread err) =
      read_failed e.lib.locate_pos o.flags.throw_on_error saved patch err null
  merge_docs overflowed o target patch depth saved t (doc p) = merge_finish o saved (
      walk_merged o depth (length target + length patch)
        (merge_patch_bounded overflowed (effective_walk_depth e depth) (some t.root) p.root))

  unfoldable pub merge_into :
      (overflowed : ℕ → Bool)
      → Options
      → (target patch : Bytes) → ℕ
      → (saved : ErrorState) → Parse
      → Reply Decoded × ErrorState
  unfolding merge_docs read_failed
  merge_into overflowed o target patch depth saved (unread err) =
      read_failed e.lib.locate_pos o.flags.throw_on_error saved target err null
  merge_into overflowed o target patch depth saved (doc t) =
      merge_docs overflowed o target patch depth saved t
        (read_doc_ex e.lib.parse patch o.flags no_extra)

  unfoldable pub merge_patch :
      (overflowed : ℕ → Bool) → (target patch : Bytes) → Options → Run Decoded
  unfolding throw_mode_init merge_into valid_depth
  merge_patch overflowed target patch o saved = elim (valid_depth o.depth) [
    | none ↦ (value_error, throw_mode_init o.flags.throw_on_error saved)
    | some depth ↦
        merge_into overflowed o target patch depth saved
          (read_doc_ex e.lib.parse target o.flags no_extra)
  ]
