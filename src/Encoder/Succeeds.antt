-- ===== src/Encoder/Succeeds.antt =====
-- dw_encode_zval of fastjson_directwrite.c and the functions under it, where partial output is not
-- asked for, and the error that they record.
use fastjson.Prelude.{
  ℕ, ◌-◌, Bool, true, false, not, ◌&&◌, ◌||◌, codes, ◌≡◌, inl, refl, if◌then◌else◌,
}
use fastjson.Errors.{error_unsupported_type}
use fastjson.Zval.{
  Zval, null, bool, long, double, string, array, object, serializable, backed_enum, unbacked_enum,
  reference, other, Table, end, entry, Call, call_threw, call_itself, call_gave, Props, no_props,
  props, Slots, slots_end, slot, undef, value, unreadable, hook_threw, hook_undef, hook_gave,
  Effect, Key,
}
use fastjson.Encoder.{
  counted, in_slot, Setting, Step, ◌>>◌, done, text, partial_or_fail, guarded, depth_test,
  is_hidden, table_mark, as_list, userland, threw, error_non_backed_enum,
}
use fastjson.Encoder.Strings.{emit_object_key}
use fastjson.Encoder.Discard.{discard_table, discard_slots, unsupported, non_backed}
use fastjson.Encoder.Emit.{
  bool_text, is_empty, or_else_discard, separator, bracketed, property, hook_failed,
  encode_zval_inner, encode_zval, emit_entries, emit_call, emit_props, emit_slots,
}
use fastjson.Encoder.Clean.{
  Cleans, stopped-Clean, done-Cleans, then-Cleans, if-Cleans, or_else_discard-Cleans, on_stop-Clean,
  opened-Cleans, partial_or_fail-Cleans, text-Cleans, counted-Cleans, stacked-Cleans,
  in_slot-Cleans, depth_test-Cleans, guarded-Cleans, called-Cleans, bracketed-Cleans, close-Cleans,
}
use fastjson.Encoder.Marks.{discard_table-Marks, discard_slots-Marks}
use fastjson.Encoder.Strict.{
  key-Cleans, long-Cleans, double-Cleans, emit_text-Cleans, separator-Cleans,
}

userland-Cleans : (e : Effect) → Cleans (userland e)
userland-Cleans e c = (λ z. (refl, refl), λ z. absurd (cc z))

threw-Cleans : Cleans threw
threw-Cleans c = stopped-Clean c (record c { exception = true }) (inl refl)

hidden-Cleans :
    (b : Bool) (m k : Step)
    → Cleans m
    → Cleans k
    → Cleans (elim b as (λ _. Step) [ true ↦ m | false ↦ k ])
hidden-Cleans true m k hm hk = hm
hidden-Cleans false m k hm hk = hk

module _ (s : Setting) (strict : s.flags.partial_output ≡ false) where
  failed-Cleans : (o : Bool) (e : Effect) → Cleans (hook_failed s o e)
  failed-Cleans o e c =
      on_stop-Clean o c ((userland e >> threw) c)
        (then-Cleans (userland e) threw (userland-Cleans e) threw-Cleans c)

  property-Cleans :
      (k : Key) (rest : Slots) (first o : Bool) (r : ℕ) (emit : Step)
      → Cleans emit
      → Cleans (property s k rest first o r emit)
  unfolding property
  property-Cleans k rest first o r emit h =
      opened-Cleans s o (or_else_discard (discard_slots s rest r) member) (
        or_else_discard-Cleans (discard_slots s rest r) member (discard_slots-Marks s rest r) (
          then-Cleans (separator s first) (emit_object_key s k >> emit)
            (separator-Cleans s strict first)
            (then-Cleans (emit_object_key s k) emit (key-Cleans s strict k) h)))
    where
      member : Step
      member = separator s first >> emit_object_key s k >> emit

  mutual
    unfolding encode_zval_inner emit_entries emit_call emit_props emit_slots

    encode_zval_inner-Cleans : (z : Zval) (r : ℕ) → Cleans (encode_zval_inner s z r)
    encode_zval_inner-Cleans null r = text-Cleans s strict (codes "null")
    encode_zval_inner-Cleans (bool b) r = text-Cleans s strict (bool_text b)
    encode_zval_inner-Cleans (long n) r = long-Cleans s strict n
    encode_zval_inner-Cleans (double d) r = double-Cleans s strict d
    encode_zval_inner-Cleans (string t) r = emit_text-Cleans s strict t
    encode_zval_inner-Cleans (array g ht) r =
        stacked-Cleans s strict (depth_test s r (guarded s (table_mark g) body)) (
          depth_test-Cleans s strict r (guarded s (table_mark g) body) (
            guarded-Cleans s strict (table_mark g) body (
              bracketed-Cleans s strict (as_list s ht) (s.flags.pretty_print && not (is_empty ht))
                loop (emit_entries-Cleans ht (as_list s ht) true (r - 1)))))
      where
        loop : Step
        loop = emit_entries s ht (as_list s ht) true (r - 1)

        body : Step
        body = bracketed s (as_list s ht) (s.flags.pretty_print && not (is_empty ht)) loop
    encode_zval_inner-Cleans (object p) r =
        stacked-Cleans s strict (depth_test s r (emit_props s p r))
          (depth_test-Cleans s strict r (emit_props s p r) (emit_props-Cleans p r))
    encode_zval_inner-Cleans (serializable g call) r =
        stacked-Cleans s strict (emit_call s g call r) (emit_call-Cleans g call r)
    encode_zval_inner-Cleans (backed_enum z) r =
        stacked-Cleans s strict (counted s (encode_zval_inner s z r))
          (counted-Cleans s strict (encode_zval_inner s z r) (encode_zval_inner-Cleans z r))
    encode_zval_inner-Cleans unbacked_enum r =
        stacked-Cleans s strict (partial_or_fail s error_non_backed_enum non_backed true)
          (partial_or_fail-Cleans s strict error_non_backed_enum non_backed true (λ e. cc e))
    encode_zval_inner-Cleans (reference z) r =
        counted-Cleans s strict (encode_zval_inner s z r) (encode_zval_inner-Cleans z r)
    encode_zval_inner-Cleans other r =
        partial_or_fail-Cleans s strict error_unsupported_type unsupported false (λ e. cc e)

    emit_entries-Cleans :
        (ht : Table) (list first : Bool) (r : ℕ) → Cleans (emit_entries s ht list first r)
    emit_entries-Cleans end list first r = done-Cleans
    emit_entries-Cleans (entry k z rest) list first r =
        then-Cleans (or_else_discard (discard_table s rest list r) element)
          (emit_entries s rest list false r)
          (or_else_discard-Cleans (discard_table s rest list r) element
            (discard_table-Marks s rest list r)
            (then-Cleans (separator s first) (named >> in_slot s z (encode_zval_inner s z r))
              (separator-Cleans s strict first)
              (then-Cleans named (in_slot s z (encode_zval_inner s z r))
                (if-Cleans list done (emit_object_key s k) done-Cleans (key-Cleans s strict k))
                (in_slot-Cleans s strict z (encode_zval_inner s z r)
                  (encode_zval_inner-Cleans z r)))))
          (emit_entries-Cleans rest list false r)
      where
        named : Step
        named = if list then done else emit_object_key s k

        element : Step
        element = separator s first >> named >> in_slot s z (encode_zval_inner s z r)

    emit_call-Cleans : (g : ℕ) (call : Call) (r : ℕ) → Cleans (emit_call s g call r)
    emit_call-Cleans g (call_threw e) r =
        called-Cleans s strict g (userland e >> threw) done
          (then-Cleans (userland e) threw (userland-Cleans e) threw-Cleans) done-Cleans
    emit_call-Cleans g (call_itself e p) r =
        called-Cleans s strict g (userland e) (depth_test s r (emit_props s p r))
          (userland-Cleans e)
          (depth_test-Cleans s strict r (emit_props s p r) (emit_props-Cleans p r))
    emit_call-Cleans g (call_gave e z) r =
        called-Cleans s strict g (userland e >> counted s (encode_zval_inner s z r)) done
          (then-Cleans (userland e) (counted s (encode_zval_inner s z r)) (userland-Cleans e)
            (counted-Cleans s strict (encode_zval_inner s z r) (encode_zval_inner-Cleans z r)))
          done-Cleans

    emit_props-Cleans : (p : Props) (r : ℕ) → Cleans (emit_props s p r)
    emit_props-Cleans (no_props e true) r =
        then-Cleans (userland e) threw (userland-Cleans e) threw-Cleans
    emit_props-Cleans (no_props e false) r =
        then-Cleans (userland e) (text s (codes "{}")) (userland-Cleans e)
          (text-Cleans s strict (codes "{}"))
    emit_props-Cleans (props e g slots) r =
        then-Cleans (userland e) (guarded s (table_mark g) (opening >> loop >> closing))
          (userland-Cleans e)
          (guarded-Cleans s strict (table_mark g) (opening >> loop >> closing) (
            then-Cleans opening (loop >> closing) (text-Cleans s strict (codes "{")) (
              then-Cleans loop closing (emit_slots-Cleans slots true false (r - 1))
                (text-Cleans s strict (codes "}")))))
      where
        opening : Step
        opening = text s (codes "{")

        loop : Step
        loop = emit_slots s slots true false (r - 1)

        closing : Step
        closing = text s (codes "}")

    emit_slots-Cleans :
        (slots : Slots) (first o : Bool) (r : ℕ) → Cleans (emit_slots s slots first o r)
    emit_slots-Cleans slots_end first o r = close-Cleans s strict o
    emit_slots-Cleans (slot k undef rest) first o r = emit_slots-Cleans rest first o r
    emit_slots-Cleans (slot k unreadable rest) first o r = emit_slots-Cleans rest first o r
    emit_slots-Cleans (slot k (hook_threw e) rest) first o r =
        hidden-Cleans (is_hidden k) (emit_slots s rest first o r) (hook_failed s o e)
          (emit_slots-Cleans rest first o r) (failed-Cleans o e)
    emit_slots-Cleans (slot k (hook_undef e) rest) first o r =
        hidden-Cleans (is_hidden k) skip (userland e >> skip) (emit_slots-Cleans rest first o r)
          (then-Cleans (userland e) skip (userland-Cleans e) (emit_slots-Cleans rest first o r))
      where
        skip : Step
        skip = emit_slots s rest first o r
    emit_slots-Cleans (slot k (hook_gave e z) rest) first o r =
        hidden-Cleans (is_hidden k) (emit_slots s rest first o r) (userland e >> here >> next)
          (emit_slots-Cleans rest first o r)
          (then-Cleans (userland e) (here >> next) (userland-Cleans e) (
            then-Cleans here next
              (property-Cleans k rest first o r (in_slot s z (encode_zval_inner s z r)) (
                in_slot-Cleans s strict z (encode_zval_inner s z r) (encode_zval_inner-Cleans z r)))
              (emit_slots-Cleans rest false (s.flags.pretty_print || o) r)))
      where
        here : Step
        here = property s k rest first o r (in_slot s z (encode_zval_inner s z r))

        next : Step
        next = emit_slots s rest false (s.flags.pretty_print || o) r
    emit_slots-Cleans (slot k (value z) rest) first o r =
        hidden-Cleans (is_hidden k) (emit_slots s rest first o r) (here >> next)
          (emit_slots-Cleans rest first o r)
          (then-Cleans here next
            (property-Cleans k rest first o r (in_slot s z (encode_zval_inner s z r))
              (in_slot-Cleans s strict z (encode_zval_inner s z r) (encode_zval_inner-Cleans z r)))
            (emit_slots-Cleans rest false (s.flags.pretty_print || o) r))
      where
        here : Step
        here = property s k rest first o r (in_slot s z (encode_zval_inner s z r))

        next : Step
        next = emit_slots s rest false (s.flags.pretty_print || o) r

  pub encode_zval-Cleans : (z : Zval) (r : ℕ) → Cleans (encode_zval s z r)
  unfolding encode_zval
  encode_zval-Cleans z r =
      counted-Cleans s strict (encode_zval_inner s z r) (encode_zval_inner-Cleans z r)
