-- ===== src/Encoder/Discard.antt =====
-- The walk over what follows an Inf or NaN that stopped the encode, which looks for a further error:
-- dw_discard_zval of fastjson_directwrite.c and the functions under it.
use fastjson.Prelude.{ℕ, ◌-◌, Bool, true, false, ◌&&◌, ◌||◌, Bytes, codes, if◌then◌else◌}
use fastjson.Doc.{real}
use fastjson.Splice.{is_finite}
use fastjson.Errors.{error_inf_or_nan, error_unsupported_type}
use fastjson.Zval.{
  Zval, null, bool, long, double, string, array, object, serializable, backed_enum, unbacked_enum,
  reference, other, Table, end, entry, Props, no_props, props, Slots, slots_end, slot, Item, undef,
  value, unreadable, hook_threw, hook_undef, hook_gave, Key, index, name,
}
use fastjson.Encoder.{
  Setting, Step, ◌>>◌, done, set_error, inf_nan, Numeric, not_numeric, is_long, is_double,
  partial_or_fail, counted, guarded, stack_test, depth_test, in_slot, is_hidden, table_mark,
  may_be_numeric, as_list, userland, threw, error_non_backed_enum,
}
use fastjson.Encoder.Strings.{discard_string}

-- is_numeric_string has found a number that is not infinite.
abbrev pub is_number : Numeric → Bool
is_number not_numeric = false
is_number (is_long n) = true
is_number (is_double d) = is_finite (real d)

abbrev pub unsupported : Bytes
unsupported = codes "Type is not supported"

abbrev pub non_backed : Bytes
non_backed = codes "Non-backed enums have no default serialization"

module _ (s : Setting) where
  unfoldable pub discard_double : ℕ → Step
  unfolding set_error
  discard_double d c =
      if is_finite (real d) || c.hard_error then done c else set_error error_inf_or_nan inf_nan c

  unfoldable pub discard_text : Bytes → Step
  unfolding discard_string
  discard_text t =
      if s.flags.numeric_check && may_be_numeric t && is_number (s.numeric t)
      then done
      else discard_string s t

  abbrev pub discard_key : Key → Step
  discard_key (name t) = discard_string s t
  discard_key (index n) = done

  unfoldable mutual
    unfolding counted in_slot guarded stack_test depth_test partial_or_fail discard_double
        discard_text discard_string

    -- dw_discard_zval_inner and dw_discard_object
    pub discard_zval_inner : Zval → ℕ → Step
    discard_zval_inner null r = done
    discard_zval_inner (bool b) r = done
    discard_zval_inner (long n) r = done
    discard_zval_inner (double d) r = discard_double d
    discard_zval_inner (string t) r = discard_text t
    discard_zval_inner (array g ht) r =
        stack_test s
          (depth_test s r (guarded s (table_mark g) (discard_table ht (as_list s ht) (r - 1))))
    discard_zval_inner (object p) r = stack_test s (depth_test s r (discard_props p r))
    discard_zval_inner (serializable g call) r = stack_test s done
    discard_zval_inner (backed_enum z) r = stack_test s (counted s (discard_zval_inner z r))
    discard_zval_inner unbacked_enum r =
        stack_test s (partial_or_fail s error_non_backed_enum non_backed true)
    discard_zval_inner (reference z) r = counted s (discard_zval_inner z r)
    discard_zval_inner other r = partial_or_fail s error_unsupported_type unsupported false

    -- dw_discard_array_range
    pub discard_table : Table → (list : Bool) → ℕ → Step
    discard_table end list r = done
    discard_table (entry k z rest) list r =
        (if list then done else discard_key k)
        >> in_slot s z (discard_zval_inner z r)
        >> discard_table rest list r

    -- dw_discard_object_props
    pub discard_props : Props → ℕ → Step
    discard_props (no_props e true) r = userland e >> threw
    discard_props (no_props e false) r = userland e
    discard_props (props e g slots) r =
        userland e >> guarded s (table_mark g) (discard_slots slots (r - 1))

    -- dw_discard_object_props_range
    pub discard_slots : Slots → ℕ → Step
    discard_slots slots_end r = done
    discard_slots (slot k item rest) r =
        (if is_hidden k then done else discard_item k item r) >> discard_slots rest r

    -- dw_discard_object_property, of a name that is not mangled
    pub discard_item : Key → Item → ℕ → Step
    discard_item k undef r = done
    discard_item k unreadable r = done
    discard_item k (hook_threw e) r = done
    discard_item k (hook_undef e) r = done
    discard_item k (hook_gave e z) r = done
    discard_item k (value z) r = discard_key k >> in_slot s z (discard_zval_inner z r)
