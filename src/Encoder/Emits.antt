-- ===== src/Encoder/Emits.antt =====
-- The walk that writes a value, dw_encode_zval of fastjson_directwrite.c: what it leaves as it was,
-- and why it may stop when partial output is asked for.
use fastjson.Prelude.{ℕ, ◌-◌, Bool, true, false, not, ◌&&◌, ◌||◌, codes, if◌then◌else◌, ◌≡◌, refl}
use fastjson.Errors.{error_unsupported_type}
use fastjson.Zval.{
  Zval, null, bool, long, double, string, array, object, serializable, backed_enum, unbacked_enum,
  reference, other, Table, end, entry, Call, call_threw, call_itself, call_gave, Props, no_props,
  props, Slots, slots_end, slot, undef, value, unreadable, hook_threw, hook_undef, hook_gave,
}
use fastjson.Encoder.{
  Setting, Ctx, Step, counted, in_slot, ◌>>◌, done, text, guarded, depth_test, is_hidden,
  table_mark, as_list, userland, threw, error_non_backed_enum, partial_or_fail,
}
use fastjson.Encoder.Strings.{emit_object_key}
use fastjson.Encoder.Discard.{discard_table, unsupported, non_backed}
use fastjson.Encoder.Emit.{
  bool_text, is_empty, or_else_discard, separator, bracketed, property, hook_failed,
  encode_zval_inner, encode_zval, emit_entries, emit_call, emit_props, emit_slots,
}
use fastjson.Encoder.Balance.{
  Same, Good, Keeps, then-Keeps, done-Keeps, userland-Keeps, threw-Keeps, if-Keeps,
  depth_test-Keeps, guarded-Keeps, partial_or_fail-Keeps, Excused,
}
use fastjson.Encoder.Leaves.{emit_text-Keeps, long-Keeps, double-Keeps, key-Keeps, separator-Keeps}
use fastjson.Encoder.Restores.{discard_table-Keeps}
use fastjson.Encoder.Bodies.{left, ran-Good, failed-Good}
use fastjson.Encoder.Containers.{
  count, stack, in_slot-Keeps, write, bracketed-Keeps, called-Keeps, element-Keeps, property-Good,
  close-Good, hidden-Good,
}

module _ (q : Bool) (s : Setting) (partial : q ≡ true → s.flags.partial_output ≡ true) where
  mutual
    unfolding encode_zval_inner emit_entries emit_call emit_props emit_slots

    encode_zval_inner-Keeps : (z : Zval) (r : ℕ) → Keeps q (encode_zval_inner s z r)
    encode_zval_inner-Keeps null r = write q s partial (codes "null")
    encode_zval_inner-Keeps (bool b) r = write q s partial (bool_text b)
    encode_zval_inner-Keeps (long n) r = long-Keeps q s partial n
    encode_zval_inner-Keeps (double d) r = double-Keeps q s partial d
    encode_zval_inner-Keeps (string t) r = emit_text-Keeps q s partial t
    encode_zval_inner-Keeps (array g ht) r = stack q s partial (depth_test s r container) (
        depth_test-Keeps q s partial r container (
          guarded-Keeps q s partial (table_mark g) body (
            bracketed-Keeps q s partial (as_list s ht) (s.flags.pretty_print && not (is_empty ht))
              loop (emit_entries-Keeps ht (as_list s ht) true (r - 1)))))
      where
        loop : Step
        loop = emit_entries s ht (as_list s ht) true (r - 1)

        body : Step
        body = bracketed s (as_list s ht) (s.flags.pretty_print && not (is_empty ht)) loop

        container : Step
        container = guarded s (table_mark g) body
    encode_zval_inner-Keeps (object p) r =
        stack q s partial (depth_test s r (emit_props s p r))
          (depth_test-Keeps q s partial r (emit_props s p r) (emit_props-Keeps p r))
    encode_zval_inner-Keeps (serializable g call) r =
        stack q s partial (emit_call s g call r) (emit_call-Keeps g call r)
    encode_zval_inner-Keeps (backed_enum z) r =
        stack q s partial (counted s (encode_zval_inner s z r))
          (count q s partial (encode_zval_inner s z r) (encode_zval_inner-Keeps z r))
    encode_zval_inner-Keeps unbacked_enum r =
        stack q s partial (partial_or_fail s error_non_backed_enum non_backed true)
          (partial_or_fail-Keeps q s partial error_non_backed_enum non_backed true)
    encode_zval_inner-Keeps (reference z) r =
        count q s partial (encode_zval_inner s z r) (encode_zval_inner-Keeps z r)
    encode_zval_inner-Keeps other r =
        partial_or_fail-Keeps q s partial error_unsupported_type unsupported false

    emit_entries-Keeps :
        (ht : Table) (list first : Bool) (r : ℕ) → Keeps q (emit_entries s ht list first r)
    emit_entries-Keeps end list first r = done-Keeps q
    emit_entries-Keeps (entry k z rest) list first r =
        then-Keeps q (or_else_discard (discard_table s rest list r) (separator s first >> value))
          (emit_entries s rest list false r)
          (element-Keeps q s partial (discard_table s rest list r) (separator s first >> value)
            (discard_table-Keeps s rest list r)
            (then-Keeps q (separator s first) value (separator-Keeps q s partial first) (
              then-Keeps q (if list then done else emit_object_key s k)
                (in_slot s z (encode_zval_inner s z r))
                (if-Keeps q list done (emit_object_key s k) (done-Keeps q)
                  (key-Keeps q s partial k))
                (in_slot-Keeps q s partial z (encode_zval_inner s z r)
                  (encode_zval_inner-Keeps z r)))))
          (emit_entries-Keeps rest list false r)
      where
        value : Step
        value =
            (if list then done else emit_object_key s k) >> in_slot s z (encode_zval_inner s z r)

    emit_call-Keeps : (g : ℕ) (call : Call) (r : ℕ) → Keeps q (emit_call s g call r)
    emit_call-Keeps g (call_threw e) r =
        called-Keeps q s partial g (userland e >> threw) done
          (then-Keeps q (userland e) threw (userland-Keeps q e) (threw-Keeps q)) (done-Keeps q)
    emit_call-Keeps g (call_itself e p) r =
        called-Keeps q s partial g (userland e) (depth_test s r (emit_props s p r))
          (userland-Keeps q e)
          (depth_test-Keeps q s partial r (emit_props s p r) (emit_props-Keeps p r))
    emit_call-Keeps g (call_gave e z) r =
        called-Keeps q s partial g (userland e >> counted s (encode_zval_inner s z r)) done
          (then-Keeps q (userland e) (counted s (encode_zval_inner s z r)) (userland-Keeps q e)
            (count q s partial (encode_zval_inner s z r) (encode_zval_inner-Keeps z r)))
          (done-Keeps q)

    emit_props-Keeps : (p : Props) (r : ℕ) → Keeps q (emit_props s p r)
    emit_props-Keeps (no_props e true) r =
        then-Keeps q (userland e) threw (userland-Keeps q e) (threw-Keeps q)
    emit_props-Keeps (no_props e false) r =
        then-Keeps q (userland e) (text s (codes "{}")) (userland-Keeps q e)
          (write q s partial (codes "{}"))
    emit_props-Keeps (props e g slots) r =
        then-Keeps q (userland e) (guarded s (table_mark g) body) (userland-Keeps q e) (
          guarded-Keeps q s partial (table_mark g) body (
            then-Keeps q (text s (codes "{"))
              (emit_slots s slots true false (r - 1) >> text s (codes "}"))
              (write q s partial (codes "{"))
              (then-Keeps q (emit_slots s slots true false (r - 1)) (text s (codes "}"))
                (emit_slots-Good slots true false (r - 1)) (write q s partial (codes "}")))))
      where
        body : Step
        body = text s (codes "{") >> emit_slots s slots true false (r - 1) >> text s (codes "}")

    emit_slots-Good :
        (slots : Slots) (first o : Bool) (r : ℕ) (c : Ctx)
        → Good q (left o c) (emit_slots s slots first o r c)
    emit_slots-Good slots_end first o r c = close-Good q s partial o c
    emit_slots-Good (slot k undef rest) first o r c = emit_slots-Good rest first o r c
    emit_slots-Good (slot k unreadable rest) first o r c = emit_slots-Good rest first o r c
    emit_slots-Good (slot k (hook_threw e) rest) first o r c =
        hidden-Good q s partial (is_hidden k) o c (emit_slots s rest first o r) (hook_failed s o e)
          (emit_slots-Good rest first o r c) (failed-Good q s o e c)
    emit_slots-Good (slot k (hook_undef e) rest) first o r c =
        hidden-Good q s partial (is_hidden k) o c (emit_slots s rest first o r)
          (userland e >> emit_slots s rest first o r) (emit_slots-Good rest first o r c)
          (ran-Good q o e c (emit_slots s rest first o r) (emit_slots-Good rest first o r))
    emit_slots-Good (slot k (hook_gave e z) rest) first o r c =
        hidden-Good q s partial (is_hidden k) o c (emit_slots s rest first o r)
          (userland e >> value >> next) (emit_slots-Good rest first o r c)
          (ran-Good q o e c (value >> next) (λ d.
            property-Good q s partial k rest first o r (in_slot s z (encode_zval_inner s z r)) next
              d
              (in_slot-Keeps q s partial z (encode_zval_inner s z r) (encode_zval_inner-Keeps z r))
              (emit_slots-Good rest false (s.flags.pretty_print || o) r)))
      where
        value : Step
        value = property s k rest first o r (in_slot s z (encode_zval_inner s z r))

        next : Step
        next = emit_slots s rest false (s.flags.pretty_print || o) r
    emit_slots-Good (slot k (value z) rest) first o r c =
        hidden-Good q s partial (is_hidden k) o c (emit_slots s rest first o r)
          (property s k rest first o r (in_slot s z (encode_zval_inner s z r)) >> next)
          (emit_slots-Good rest first o r c)
          (property-Good q s partial k rest first o r (in_slot s z (encode_zval_inner s z r)) next c
            (in_slot-Keeps q s partial z (encode_zval_inner s z r) (encode_zval_inner-Keeps z r))
            (emit_slots-Good rest false (s.flags.pretty_print || o) r))
      where
        next : Step
        next = emit_slots s rest false (s.flags.pretty_print || o) r

  pub encode_zval-Keeps : (z : Zval) (r : ℕ) → Keeps q (encode_zval s z r)
  unfolding encode_zval
  encode_zval-Keeps z r = count q s partial (encode_zval_inner s z r) (encode_zval_inner-Keeps z r)

-- However dw_encode_zval ends, with output, with an error, or with an exception of userland code,
-- the call depth, the level of indentation and the recursion marks are as before.
pub encode_zval-Same : (s : Setting) (z : Zval) (r : ℕ) (c : Ctx) → Same c (encode_zval s z r c).1
encode_zval-Same s z r c = (encode_zval-Keeps false s (λ h. absurd (cc h)) z r c).0

-- With PARTIAL_OUTPUT_ON_ERROR, and no hard error before, dw_encode_zval makes no hard error, and
-- it stops only where an exception is pending or the last error is that the output is too large.
pub encode_zval-Excused :
    (s : Setting) (z : Zval) (r : ℕ) (c : Ctx)
    → s.flags.partial_output ≡ true
    → c.hard_error ≡ false
    → ((encode_zval s z r c).1.hard_error ≡ false)
      × ((encode_zval s z r c).0 ≡ false → Excused (encode_zval s z r c).1)
encode_zval-Excused s z r c p h = (encode_zval-Keeps true s (λ _. p) z r c).1 refl h
