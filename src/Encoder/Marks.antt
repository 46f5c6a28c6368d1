-- ===== src/Encoder/Marks.antt =====
-- The walk behind a hard error (dw_discard_zval of fastjson_directwrite.c) and the recorded error:
-- an error may give way to another one, not to none.
use fastjson.Prelude.{
  ℕ, ◌+◌, ◌-◌, ◌/◌, Bool, true, false, not, ◌&&◌, ◌||◌, Option, none, some, Bytes, codes, length,
  leb, ltb, ◌==◌, ◌≡◌, ◌⊎◌, inl, inr, refl, if◌then◌else◌,
}
use fastjson.Doc.{real}
use fastjson.Utf8.{utf8_well_formed}
use fastjson.Splice.{is_finite}
use fastjson.Errors.{error_depth, error_utf8, error_inf_or_nan, error_unsupported_type}
use fastjson.Zval.{
  Zval, null, bool, long, double, string, array, object, serializable, backed_enum, unbacked_enum,
  reference, other, Table, end, entry, Props, no_props, props, Slots, slots_end, slot, Item, undef,
  value, unreadable, hook_threw, hook_undef, hook_gave, Key, index, name, Effect,
}
use fastjson.Encoder.{
  in_slot, Setting, Ctx, Step, and_then, ◌>>◌, done, stop, set_error, fail_too_large, malformed,
  inf_nan, text, partial_or_fail, counted, guarded, stack_test, depth_test, Guard, is_recursive,
  is_hidden, protect, table_mark, may_be_numeric, as_list, userland, threw, too_deep,
  error_recursion, error_non_backed_enum,
}
use fastjson.Encoder.Strings.{discard_string}
use fastjson.Encoder.Discard.{
  is_number, unsupported, non_backed, discard_double, discard_text, discard_key, discard_zval_inner,
  discard_table, discard_props, discard_slots, discard_item,
}

-- An exception is pending, or an error is recorded.
abbrev pub Marked : Ctx → Type 0
Marked c = (c.exception ≡ true) ⊎ ¬ (c.error.code ≡ 0)

abbrev pub Marks : Step → Type 0
Marks m = (c : Ctx) → Marked c → Marked (m c).1

and_then-Marked : (r : Bool × Ctx) (k : Step) → Marked r.1 → Marks k → Marked (and_then r k).1
and_then-Marked (true, d) k h hk = hk d h
and_then-Marked (false, d) k h hk = h

then-Marks : (m k : Step) → Marks m → Marks k → Marks (m >> k)
then-Marks m k hm hk c h = and_then-Marked (m c) k (hm c h) hk

if-Marked : (b : Bool) (x y : Bool × Ctx) → Marked x.1 → Marked y.1 → Marked (if b then x else y).1
if-Marked true x y hx hy = hx
if-Marked false x y hx hy = hy

if-Marks : (b : Bool) (m k : Step) → Marks m → Marks k → Marks (if b then m else k)
if-Marks true m k hm hk = hm
if-Marks false m k hm hk = hk

same-Marks : Marks done
same-Marks c h = h

userland-Marks : (e : Effect) → Marks (userland e)
userland-Marks e c h = h

threw-Marks : Marks threw
threw-Marks c h = inl refl

error-Marks : (code : ℕ) (msg : Bytes) → ¬ (code ≡ 0) → Marks (set_error code msg)
unfolding set_error
error-Marks code msg k c h = inr k

module _ (s : Setting) where
  text-Marks : (t : Bytes) → Marks (text s t)
  unfolding text
  text-Marks t c h = h

  partial-Marks :
      (code : ℕ) (msg : Bytes) (zero : Bool)
      → ¬ (code ≡ 0)
      → Marks (partial_or_fail s code msg zero)
  unfolding partial_or_fail
  partial-Marks code msg zero k =
      then-Marks (set_error code msg)
        (if s.flags.partial_output then text s (if zero then codes "0" else codes "null") else stop)
        (error-Marks code msg k)
        (if-Marks s.flags.partial_output (text s (if zero then codes "0" else codes "null")) stop
          (text-Marks (if zero then codes "0" else codes "null")) (λ c h. h))

  depth-Marks : Marks (partial_or_fail s error_depth too_deep false)
  depth-Marks = partial-Marks error_depth too_deep false (λ e. cc e)

  count : (m : Step) → Marks m → Marks (counted s m)
  unfolding counted
  count m k c h =
      if-Marked (not s.has_native_stack_limit && leb 1024 c.call_depth) _ _ (depth-Marks c h)
        (k (record c { call_depth = c.call_depth + 1 }) h)

  stack : (m : Step) → Marks m → Marks (stack_test s m)
  unfolding stack_test
  stack m k c h = if-Marked (s.overflowed c.call_depth) _ _ (depth-Marks c h) (k c h)

  deep : (r : ℕ) (m : Step) → Marks m → Marks (depth_test s r m)
  unfolding depth_test
  deep r m k c h = if-Marked (r == 0) _ _ (depth-Marks c h) (k c h)

  guard : (g : Option Guard) (m : Step) → Marks m → Marks (guarded s g m)
  unfolding guarded
  guard none m k c h = k c h
  guard (some g) m k c h =
      if-Marked (is_recursive g c.guards) _ _
        (partial-Marks error_recursion (codes "Recursion detected") false (λ e. cc e) c h)
        (k (protect g c) h)

  discard_string-Marks : (t : Bytes) → Marks (discard_string s t)
  unfolding discard_string fail_too_large set_error
  discard_string-Marks t =
      if-Marks (ltb ((s.env.max_len - 2) / 6) (length t)) fail_too_large _ (λ c h. inr (λ e. cc e))
        (if-Marks (s.flags.ignore || s.flags.subst || utf8_well_formed t) done
          (set_error error_utf8 malformed >> stop) same-Marks (λ c h. inr (λ e. cc e)))

  discard_text-Marks : (t : Bytes) → Marks (discard_text s t)
  unfolding discard_text
  discard_text-Marks t =
      if-Marks (s.flags.numeric_check && may_be_numeric t && is_number (s.numeric t)) done
        (discard_string s t) same-Marks (discard_string-Marks t)

  discard_double-Marks : (d : ℕ) → Marks (discard_double s d)
  unfolding discard_double
  discard_double-Marks d c h =
      if-Marked (is_finite (real d) || c.hard_error) _ _ h
        (error-Marks error_inf_or_nan inf_nan (λ e. cc e) c h)

  discard_key-Marks : (k : Key) → Marks (discard_key s k)
  discard_key-Marks (name t) = discard_string-Marks t
  discard_key-Marks (index n) = same-Marks

  slotted : (z : Zval) (m : Step) → Marks m → Marks (in_slot s z m)
  unfolding in_slot
  slotted (reference z) m h = h
  slotted null m h = count m h
  slotted _ m h = count m h

  mutual
    unfolding discard_zval_inner discard_table discard_props discard_slots discard_item

    discard_zval_inner-Marks : (z : Zval) (r : ℕ) → Marks (discard_zval_inner s z r)
    discard_zval_inner-Marks null r = same-Marks
    discard_zval_inner-Marks (bool b) r = same-Marks
    discard_zval_inner-Marks (long n) r = same-Marks
    discard_zval_inner-Marks (double d) r = discard_double-Marks d
    discard_zval_inner-Marks (string t) r = discard_text-Marks t
    discard_zval_inner-Marks (array g ht) r = stack (depth_test s r m) (
        deep r m (
          guard (table_mark g) (discard_table s ht (as_list s ht) (r - 1))
            (discard_table-Marks ht (as_list s ht) (r - 1))))
      where
        m : Step
        m = guarded s (table_mark g) (discard_table s ht (as_list s ht) (r - 1))
    discard_zval_inner-Marks (object p) r =
        stack (depth_test s r (discard_props s p r))
          (deep r (discard_props s p r) (discard_props-Marks p r))
    discard_zval_inner-Marks (serializable g call) r = stack done same-Marks
    discard_zval_inner-Marks (backed_enum z) r =
        stack (counted s (discard_zval_inner s z r))
          (count (discard_zval_inner s z r) (discard_zval_inner-Marks z r))
    discard_zval_inner-Marks unbacked_enum r =
        stack (partial_or_fail s error_non_backed_enum non_backed true)
          (partial-Marks error_non_backed_enum non_backed true (λ e. cc e))
    discard_zval_inner-Marks (reference z) r =
        count (discard_zval_inner s z r) (discard_zval_inner-Marks z r)
    discard_zval_inner-Marks other r =
        partial-Marks error_unsupported_type unsupported false (λ e. cc e)

    pub discard_table-Marks : (ht : Table) (list : Bool) (r : ℕ) → Marks (discard_table s ht list r)
    discard_table-Marks end list r = same-Marks
    discard_table-Marks (entry k z rest) list r =
        then-Marks (if list then done else discard_key s k)
          (in_slot s z (discard_zval_inner s z r) >> discard_table s rest list r)
          (if-Marks list done (discard_key s k) same-Marks (discard_key-Marks k))
          (then-Marks (in_slot s z (discard_zval_inner s z r)) (discard_table s rest list r)
            (slotted z (discard_zval_inner s z r) (discard_zval_inner-Marks z r))
            (discard_table-Marks rest list r))

    discard_props-Marks : (p : Props) (r : ℕ) → Marks (discard_props s p r)
    discard_props-Marks (no_props e true) r =
        then-Marks (userland e) threw (userland-Marks e) threw-Marks
    discard_props-Marks (no_props e false) r = userland-Marks e
    discard_props-Marks (props e g slots) r =
        then-Marks (userland e) (guarded s (table_mark g) (discard_slots s slots (r - 1)))
          (userland-Marks e)
          (guard (table_mark g) (discard_slots s slots (r - 1)) (discard_slots-Marks slots (r - 1)))

    pub discard_slots-Marks : (slots : Slots) (r : ℕ) → Marks (discard_slots s slots r)
    discard_slots-Marks slots_end r = same-Marks
    discard_slots-Marks (slot k item rest) r =
        then-Marks (if is_hidden k then done else discard_item s k item r) (discard_slots s rest r)
          (if-Marks (is_hidden k) done (discard_item s k item r) same-Marks
            (discard_item-Marks k item r))
          (discard_slots-Marks rest r)

    discard_item-Marks : (k : Key) (item : Item) (r : ℕ) → Marks (discard_item s k item r)
    discard_item-Marks k undef r = same-Marks
    discard_item-Marks k unreadable r = same-Marks
    discard_item-Marks k (hook_threw e) r = same-Marks
    discard_item-Marks k (hook_undef e) r = same-Marks
    discard_item-Marks k (hook_gave e z) r = same-Marks
    discard_item-Marks k (value z) r =
        then-Marks (discard_key s k) (in_slot s z (discard_zval_inner s z r)) (discard_key-Marks k)
          (slotted z (discard_zval_inner s z r) (discard_zval_inner-Marks z r))
