-- ===== src/Encoder/Restores.antt =====
-- The walks of fastjson_directwrite.c leave the counts and the recursion marks as they were, on every
-- way out.
use fastjson.Prelude.{
  ℕ, ◌-◌, Bool, true, false, ◌&&◌, ◌||◌, Bytes, ltb, ◌/◌, length, if◌then◌else◌, ◌≡◌, refl,
}
use fastjson.Utf8.{utf8_well_formed}
use fastjson.Errors.{error_utf8, error_unsupported_type}
use fastjson.Zval.{
  Zval, null, bool, long, double, string, array, object, serializable, backed_enum, unbacked_enum,
  reference, other, Table, end, entry, Props, no_props, props, Slots, slots_end, slot, Item, undef,
  value, unreadable, hook_threw, hook_undef, hook_gave, Key, index, name,
}
use fastjson.Encoder.{
  in_slot, Setting, Step, ◌>>◌, done, stop, set_error, fail_too_large, malformed, counted, guarded,
  stack_test, depth_test, is_hidden, table_mark, may_be_numeric, as_list, userland, threw,
  error_non_backed_enum, partial_or_fail,
}
use fastjson.Encoder.Strings.{discard_string}
use fastjson.Encoder.Discard.{
  discard_text, discard_key, discard_zval_inner, discard_table, discard_props, discard_slots,
  discard_item, is_number, unsupported, non_backed,
}
use fastjson.Encoder.Balance.{
  Keeps, then-Keeps, done-Keeps, set_error-Keeps, userland-Keeps, threw-Keeps, too_large-Keeps,
  if-Keeps, counted-Keeps, stack_test-Keeps, depth_test-Keeps, guarded-Keeps, partial_or_fail-Keeps,
}
use fastjson.Encoder.Leaves.{discard_double-Keeps}

module _ (s : Setting) where
  never : false ≡ true → s.flags.partial_output ≡ true
  never h = absurd (cc h)

  discard_string-Keeps : (t : Bytes) → Keeps false (discard_string s t)
  unfolding discard_string
  discard_string-Keeps t =
      if-Keeps false (ltb ((s.env.max_len - 2) / 6) (length t)) fail_too_large _
        (too_large-Keeps false)
        (if-Keeps false (s.flags.ignore || s.flags.subst || utf8_well_formed t) done
          (set_error error_utf8 malformed >> stop) (done-Keeps false)
          (then-Keeps false (set_error error_utf8 malformed) stop
            (set_error-Keeps false error_utf8 malformed) stopped))
    where
      stopped : Keeps false stop
      stopped c = ((refl, refl, refl), λ h z. absurd (cc h))

  discard_text-Keeps : (t : Bytes) → Keeps false (discard_text s t)
  unfolding discard_text
  discard_text-Keeps t =
      if-Keeps false (s.flags.numeric_check && may_be_numeric t && is_number (s.numeric t)) done
        (discard_string s t) (done-Keeps false) (discard_string-Keeps t)

  discard_key-Keeps : (k : Key) → Keeps false (discard_key s k)
  discard_key-Keeps (name t) = discard_string-Keeps t
  discard_key-Keeps (index n) = done-Keeps false

  count : (m : Step) → Keeps false m → Keeps false (counted s m)
  count m h = counted-Keeps false s never m h

  stack : (m : Step) → Keeps false m → Keeps false (stack_test s m)
  stack m h = stack_test-Keeps false s never m h

  slotted : (z : Zval) (m : Step) → Keeps false m → Keeps false (in_slot s z m)
  unfolding in_slot
  slotted (reference z) m h = h
  slotted null m h = count m h
  slotted _ m h = count m h

  mutual
    unfolding discard_zval_inner discard_table discard_props discard_slots discard_item

    discard_zval_inner-Keeps : (z : Zval) (r : ℕ) → Keeps false (discard_zval_inner s z r)
    discard_zval_inner-Keeps null r = done-Keeps false
    discard_zval_inner-Keeps (bool b) r = done-Keeps false
    discard_zval_inner-Keeps (long n) r = done-Keeps false
    discard_zval_inner-Keeps (double d) r = discard_double-Keeps false s never d
    discard_zval_inner-Keeps (string t) r = discard_text-Keeps t
    discard_zval_inner-Keeps (array g ht) r = stack (depth_test s r m) (
        depth_test-Keeps false s never r m (
          guarded-Keeps false s never (table_mark g) (discard_table s ht (as_list s ht) (r - 1))
            (discard_table-Keeps ht (as_list s ht) (r - 1))))
      where
        m : Step
        m = guarded s (table_mark g) (discard_table s ht (as_list s ht) (r - 1))
    discard_zval_inner-Keeps (object p) r =
        stack (depth_test s r (discard_props s p r))
          (depth_test-Keeps false s never r (discard_props s p r) (discard_props-Keeps p r))
    discard_zval_inner-Keeps (serializable g call) r = stack done (done-Keeps false)
    discard_zval_inner-Keeps (backed_enum z) r =
        stack (counted s (discard_zval_inner s z r))
          (count (discard_zval_inner s z r) (discard_zval_inner-Keeps z r))
    discard_zval_inner-Keeps unbacked_enum r =
        stack (partial_or_fail s error_non_backed_enum non_backed true)
          (partial_or_fail-Keeps false s never error_non_backed_enum non_backed true)
    discard_zval_inner-Keeps (reference z) r =
        count (discard_zval_inner s z r) (discard_zval_inner-Keeps z r)
    discard_zval_inner-Keeps other r =
        partial_or_fail-Keeps false s never error_unsupported_type unsupported false

    pub discard_table-Keeps :
        (ht : Table) (list : Bool) (r : ℕ) → Keeps false (discard_table s ht list r)
    discard_table-Keeps end list r = done-Keeps false
    discard_table-Keeps (entry k z rest) list r =
        then-Keeps false (if list then done else discard_key s k)
          (in_slot s z (discard_zval_inner s z r) >> discard_table s rest list r)
          (if-Keeps false list done (discard_key s k) (done-Keeps false) (discard_key-Keeps k))
          (then-Keeps false (in_slot s z (discard_zval_inner s z r)) (discard_table s rest list r)
            (slotted z (discard_zval_inner s z r) (discard_zval_inner-Keeps z r))
            (discard_table-Keeps rest list r))

    discard_props-Keeps : (p : Props) (r : ℕ) → Keeps false (discard_props s p r)
    discard_props-Keeps (no_props e true) r =
        then-Keeps false (userland e) threw (userland-Keeps false e) (threw-Keeps false)
    discard_props-Keeps (no_props e false) r = userland-Keeps false e
    discard_props-Keeps (props e g slots) r =
        then-Keeps false (userland e) (guarded s (table_mark g) (discard_slots s slots (r - 1)))
          (userland-Keeps false e)
          (guarded-Keeps false s never (table_mark g) (discard_slots s slots (r - 1))
            (discard_slots-Keeps slots (r - 1)))

    pub discard_slots-Keeps : (slots : Slots) (r : ℕ) → Keeps false (discard_slots s slots r)
    discard_slots-Keeps slots_end r = done-Keeps false
    discard_slots-Keeps (slot k item rest) r =
        then-Keeps false (if is_hidden k then done else discard_item s k item r)
          (discard_slots s rest r)
          (if-Keeps false (is_hidden k) done (discard_item s k item r) (done-Keeps false)
            (discard_item-Keeps k item r))
          (discard_slots-Keeps rest r)

    discard_item-Keeps : (k : Key) (item : Item) (r : ℕ) → Keeps false (discard_item s k item r)
    discard_item-Keeps k undef r = done-Keeps false
    discard_item-Keeps k unreadable r = done-Keeps false
    discard_item-Keeps k (hook_threw e) r = done-Keeps false
    discard_item-Keeps k (hook_undef e) r = done-Keeps false
    discard_item-Keeps k (hook_gave e z) r = done-Keeps false
    discard_item-Keeps k (value z) r =
        then-Keeps false (discard_key s k) (in_slot s z (discard_zval_inner s z r))
          (discard_key-Keeps k)
          (slotted z (discard_zval_inner s z r) (discard_zval_inner-Keeps z r))
