-- ===== src/Encoder/Emit.antt =====
-- The walk that writes a value: dw_encode_zval of fastjson_directwrite.c and the functions under it.
use fastjson.Prelude.{ℕ, ◌-◌, ◌+◌, Bool, true, false, not, ◌&&◌, ◌||◌, Bytes, codes, if◌then◌else◌}
use fastjson.Doc.{real}
use fastjson.Splice.{is_finite}
use fastjson.Errors.{error_unsupported_type}
use fastjson.Zval.{
  Zval, null, bool, long, double, string, array, object, serializable, backed_enum, unbacked_enum,
  reference, other, Table, end, entry, Call, call_threw, call_itself, call_gave, Props, no_props,
  props, Slots, slots_end, slot, undef, value, unreadable, hook_threw, hook_undef, hook_gave, Key,
  Effect,
}
use fastjson.Encoder.{
  Setting, Ctx, Step, and_then, ◌>>◌, done, Numeric, not_numeric, is_long, is_double, text,
  newline_indent, partial_or_fail, counted, guarded, stack_test, depth_test, in_slot, is_hidden,
  table_mark, may_be_numeric, as_list, userland, threw, json_guard, is_recursive, protect,
  unprotect, error_recursion, error_non_backed_enum,
}
use fastjson.Encoder.Strings.{emit_string_ex, emit_object_key}
use fastjson.Encoder.Numbers.{emit_long, emit_double}
use fastjson.Encoder.Discard.{discard_table, discard_slots, unsupported, non_backed}

abbrev pub bool_text : Bool → Bytes
bool_text true = codes "true"
bool_text false = codes "false"

abbrev pub is_empty : Table → Bool
is_empty end = true
is_empty (entry k z rest) = false

abbrev pub deeper : Bool → Ctx → Ctx
deeper true c = record c { indent_level = c.indent_level + 1 }
deeper false c = c

abbrev pub shallower : Bool → Bool × Ctx → Bool × Ctx
shallower true (b, c) = (b, record c { indent_level = c.indent_level - 1 })
shallower false (b, c) = (b, c)

-- What is left to do where a loop stops: to leave the body of an object that is body_open.
abbrev pub shallower_on_stop : Bool → Bool × Ctx → Bool × Ctx
shallower_on_stop body_open (true, c) = (true, c)
shallower_on_stop body_open (false, c) = shallower body_open (false, c)

-- The rest of a container is discarded where an element has stopped the encode.
abbrev pub discarded : Bool × Ctx → Bool × Ctx
discarded (true, c) = (false, c)
discarded (false, c) = (false, record c { discard_aborted = true })

abbrev pub or_discard : Step → Bool × Ctx → Bool × Ctx
or_discard d (true, c) = (true, c)
or_discard d (false, c) =
    if c.hard_error && not c.discard_aborted then discarded (d c) else (false, c)

abbrev pub or_else_discard : Step → Step → Step
or_else_discard d m c = or_discard d (m c)

module _ (s : Setting) where
  unfoldable pub emit_numeric : Bytes → Numeric → Step
  unfolding emit_long emit_double emit_string_ex
  emit_numeric t not_numeric = emit_string_ex s false t
  emit_numeric t (is_long n) = emit_long s n
  emit_numeric t (is_double d) =
      if is_finite (real d) then emit_double s d else emit_string_ex s false t

  unfoldable pub emit_text : Bytes → Step
  unfolding emit_numeric
  emit_text t =
      if s.flags.numeric_check && may_be_numeric t
      then emit_numeric t (s.numeric t)
      else emit_string_ex s false t

  unfoldable pub separator : Bool → Step
  unfolding text newline_indent
  separator first =
      (if first then done else text s (codes ","))
      >> (if s.flags.pretty_print then newline_indent s else done)

  -- A container's elements, one level further in, between its brackets.
  unfoldable pub bracketed : (list deeper : Bool) → Step → Step
  unfolding text newline_indent
  bracketed list inner m =
      text s (if list then codes "[" else codes "{")
      >> (λ c. shallower inner (m (deeper inner c)))
      >> (if inner then newline_indent s else done)
      >> text s (if list then codes "]" else codes "}")

  -- jsonSerialize() is called by `m` with the guard of the object set; `k` runs after that.
  unfoldable pub called : ℕ → Step → Step → Step
  unfolding partial_or_fail
  called g m k c =
      if is_recursive (json_guard g) c.guards
      then partial_or_fail s error_recursion (codes "Recursion detected") false c
      else and_then (unprotect (json_guard g) (m (protect (json_guard g) c))) k

  -- A property is written: `body_open` says that the object's body is indented already.
  abbrev pub opened : (body_open : Bool) → Step → Step
  opened body_open m c =
      shallower_on_stop (s.flags.pretty_print || body_open)
        (m (deeper (s.flags.pretty_print && not body_open) c))

  -- A property whose name is not mangled; `emit` writes its value.
  unfoldable pub property : Key → Slots → (first body_open : Bool) → ℕ → Step → Step
  unfolding separator emit_object_key discard_slots
  property k rest first body_open r emit =
      opened body_open
        (or_else_discard (discard_slots s rest r) (separator first >> emit_object_key s k >> emit))

  abbrev pub hook_failed : (body_open : Bool) → Effect → Step
  hook_failed body_open e c = shallower_on_stop body_open ((userland e >> threw) c)

  unfoldable pub close_body : (body_open : Bool) → Step
  unfolding newline_indent
  close_body true c = newline_indent s (record c { indent_level = c.indent_level - 1 })
  close_body false c = (true, c)

  unfoldable mutual
    unfolding counted in_slot guarded stack_test depth_test partial_or_fail separator bracketed
        called close_body property text emit_text emit_long emit_double emit_object_key
        discard_table

    -- dw_encode_zval_inner, dw_emit_array and dw_emit_object
    pub encode_zval_inner : Zval → ℕ → Step
    encode_zval_inner null r = text s (codes "null")
    encode_zval_inner (bool b) r = text s (bool_text b)
    encode_zval_inner (long n) r = emit_long s n
    encode_zval_inner (double d) r = emit_double s d
    encode_zval_inner (string t) r = emit_text t
    encode_zval_inner (array g ht) r = stack_test s (
        depth_test s r (
          guarded s (table_mark g) (
            bracketed (as_list s ht) (s.flags.pretty_print && not (is_empty ht))
              (emit_entries ht (as_list s ht) true (r - 1)))))
    encode_zval_inner (object p) r = stack_test s (depth_test s r (emit_props p r))
    encode_zval_inner (serializable g call) r = stack_test s (emit_call g call r)
    encode_zval_inner (backed_enum z) r = stack_test s (counted s (encode_zval_inner z r))
    encode_zval_inner unbacked_enum r =
        stack_test s (partial_or_fail s error_non_backed_enum non_backed true)
    encode_zval_inner (reference z) r = counted s (encode_zval_inner z r)
    encode_zval_inner other r = partial_or_fail s error_unsupported_type unsupported false

    -- The loops of dw_emit_array over a list and over keys.
    pub emit_entries : Table → (list first : Bool) → ℕ → Step
    emit_entries end list first r = done
    emit_entries (entry k z rest) list first r =
        or_else_discard (discard_table s rest list r) (
          separator first
          >> (if list then done else emit_object_key s k)
          >> in_slot s z (encode_zval_inner z r))
        >> emit_entries rest list false r

    -- dw_emit_jsonserializable
    pub emit_call : ℕ → Call → ℕ → Step
    emit_call g (call_threw e) r = called g (userland e >> threw) done
    emit_call g (call_itself e p) r = called g (userland e) (depth_test s r (emit_props p r))
    emit_call g (call_gave e z) r = called g (userland e >> counted s (encode_zval_inner z r)) done

    -- dw_emit_object_props
    pub emit_props : Props → ℕ → Step
    emit_props (no_props e true) r = userland e >> threw
    emit_props (no_props e false) r = userland e >> text s (codes "{}")
    emit_props (props e g slots) r =
        userland e
        >> guarded s (table_mark g)
            (text s (codes "{") >> emit_slots slots true false (r - 1) >> text s (codes "}"))

    -- Its loop over the properties.
    pub emit_slots : Slots → (first body_open : Bool) → ℕ → Step
    emit_slots slots_end first body_open r = close_body body_open
    emit_slots (slot k undef rest) first body_open r = emit_slots rest first body_open r
    emit_slots (slot k unreadable rest) first body_open r = emit_slots rest first body_open r
    emit_slots (slot k (hook_threw e) rest) first body_open r = elim (is_hidden k) [
      | true ↦ emit_slots rest first body_open r
      | false ↦ hook_failed body_open e
    ]
    emit_slots (slot k (hook_undef e) rest) first body_open r = elim (is_hidden k) [
      | true ↦ emit_slots rest first body_open r
      | false ↦ userland e >> emit_slots rest first body_open r
    ]
    emit_slots (slot k (hook_gave e z) rest) first body_open r = elim (is_hidden k) [
      | true ↦ emit_slots rest first body_open r
      | false ↦
          userland e
          >> property k rest first body_open r (in_slot s z (encode_zval_inner z r))
          >> emit_slots rest false (s.flags.pretty_print || body_open) r
    ]
    emit_slots (slot k (value z) rest) first body_open r = elim (is_hidden k) [
      | true ↦ emit_slots rest first body_open r
      | false ↦
          property k rest first body_open r (in_slot s z (encode_zval_inner z r))
          >> emit_slots rest false (s.flags.pretty_print || body_open) r
    ]

  -- dw_encode_zval
  unfoldable pub encode_zval : Zval → ℕ → Step
  unfolding encode_zval_inner
  encode_zval z r = counted s (encode_zval_inner z r)
