-- ===== src/Decode/Sets.antt =====
-- What fastjson_pointer_set of fastjson_decode.c returns for a scalar.
use fastjson.Prelude.{
  ℕ, suc, ◌-◌, Bool, true, false, not, Option, none, some, Bytes, length, ◌==◌, if◌then◌else◌, ◌≡◌,
  refl, ◌∙◌, ◌≤◌, sym, ap, arith, List, [], ◌∷◌, map,
}
use fastjson.Doc.{Val}
use fastjson.Pointer.Parse.{
  Keys, keys, refused, view, parse_spec, parse_spec-count, pointer_parse_lem,
}
use fastjson.Splice.NoPlace.{walk_failed-set_at}
use fastjson.Reading.{ReadDoc, doc, Extra, read_doc_ex}
use fastjson.Pointer.{
  Status, settable_fail, Plan, seg_bytes, plan_keys, Parsed, planned, pointer_parse,
}
use fastjson.Pointer.Walk.{
  ready, plan_init, plan_checked, checked_plan, Walked, reached, missing, pointer_walk,
  no_utf8_flags,
}
use fastjson.Splice
use fastjson.Splice.{value}
use fastjson.Splice.Full.{write_full}
use fastjson.Splice.Edit.{SetResult, written, start_ctx, imut_pointer_set_write}
use fastjson.Splice.SetAt.{set_at}
use fastjson.Splice.Steps.{success, given}
use fastjson.Splice.Document.{text_of, bytes_of, imut_pointer_set_write-set_at}
use fastjson.Errors.{ErrorState, returned, dispatch_error, throw_error, cleared}
use fastjson.Entry.{pos}
use fastjson.Zval.{Zval, Globals}
use fastjson.Encoder.{Setting, Guard}
use fastjson.Encode.{Outcome, reply, with_error, begun}
use fastjson.Decode.{Engine, effective_walk_depth, valid_depth}
use fastjson.Decode.Scalars.{HasPlainFlags, Stands, must_encode_lem, Stands-plain_value}
use fastjson.Decode.Set.{
  in_globals, plain_value, dereferenced, must_encode, build_replacement, base_flags, set_written,
  set_replaced, set_planned, set_into, pointer_set, splicing,
}

length-map : {A B : Type 0} (f : A → B) (xs : List A) → length (map f xs) ≡ length xs
length-map f [] = refl
length-map f (x ∷ xs) = ap suc (length-map f xs)

-- The text that a call returns, or none.
abbrev pub set_text : Outcome (Option Bytes) × Globals → Option Bytes
set_text (reply (returned o), g) = o
set_text (outcome, g) = none

-- The document with the value at a pointer, of what the pointer says by its grammar.
abbrev pub edited : ℕ → Keys → Val → Val → Option Val
edited size_max (keys count found) new root = set_at size_max found new root
edited size_max (refused status) new root = none

abbrev pub has_segments : Keys → Bool
has_segments (keys count found) = not (count == 0)
has_segments (refused status) = false

length-plan_keys : (plan : Plan) → length (plan_keys plan) ≡ length plan.segs
length-plan_keys plan = length-map (seg_bytes plan.storage) plan.segs

valid_depth_lem : (n : ℕ) → 1 ≤ n → n ≤ 2147483647 → valid_depth (pos n) ≡ some n
unfolding valid_depth
valid_depth_lem n h k = ground arith

module _ (e : Engine) (s : Setting) (w : Splice.Setting) (throw_mode : Bool) where
  dispatch-text :
      (b : Bool) (saved : ErrorState) (g : Globals) (status : Status)
      → set_text (in_globals g (dispatch_error status b saved none)) ≡ none
  unfolding dispatch_error throw_error
  dispatch-text true saved g status = refl
  dispatch-text false saved g status = refl

  set_written-text :
      (saved err : ErrorState) (g : Globals) (r : SetResult)
      → set_text (set_written e s w throw_mode saved err g r) ≡ text_of r
  unfolding set_written
  set_written-text saved err g (written t) = refl
  set_written-text saved err g (SetResult.failed status) = dispatch-text throw_mode saved g status

  -- A scalar that needs no encoder.
  plain_replacement :
      (z : Zval) (depth : ℕ) (guards : List Guard) (g : Globals) (v : Val)
      → must_encode s ≡ false
      → plain_value s (dereferenced z) ≡ some v
      → build_replacement s z depth guards g
        ≡ record { replacement = some (value v); error = cleared; globals = g; exception = false }
  unfolding build_replacement
  plain_replacement z depth guards g v hm hv = rw (build_replacement, hm, hv) refl

  planned-text :
      (saved : ErrorState) (z : Zval) (guards : List Guard) (g : Globals) (root : Val) (depth : ℕ)
      → (plan : Plan) (v : Val) → must_encode s ≡ false
      → plain_value s (dereferenced z) ≡ some v
      → set_text (set_planned e s w throw_mode saved z guards g root depth (ready plan))
        ≡ text_of (imut_pointer_set_write (splicing s w) e.lib.size_max (value v) root plan depth)
  unfolding set_planned set_replaced
  planned-text saved z guards g root depth plan v hm hv =
      rw (plain_replacement z (depth - plan.nsegs - 1) guards g v hm hv) (
        set_written-text saved cleared (if throw_mode then g else with_error g cleared)
          (imut_pointer_set_write (splicing s w) e.lib.size_max (value v) root plan depth))

  -- The text of the document that a pointer's keys make.
  abbrev text_with : Keys → Val → Val → (depth : ℕ) → Option Bytes
  text_with k v root depth = bytes_of (
      success (
        given (edited e.lib.size_max k v root) (λ x. write_full (splicing s w) x depth)
          (start_ctx (splicing s w) e.lib.size_max (value v) (has_segments k))))

  module _ (saved : ErrorState) (z : Zval) (guards : List Guard) (g : Globals) (root : Val)
      (depth : ℕ) (v : Val) (room : (r : ℕ) → w.overflowed r ≡ false) (hm : must_encode s ≡ false)
      (hv : plain_value s (dereferenced z) ≡ some v) where
    ready-text :
        (plan : Plan)
        → plan.nsegs ≡ length (plan_keys plan)
        → set_text (set_planned e s w throw_mode saved z guards g root depth (ready plan))
          ≡ text_with (keys plan.nsegs (plan_keys plan)) v root depth
    ready-text plan h =
        planned-text saved z guards g root depth plan v hm hv
        ∙ imut_pointer_set_write-set_at (splicing s w) room e.lib.size_max v plan root depth
            (h ∙ length-plan_keys plan)

    checked-text :
        (plan : Plan)
        → plan.nsegs ≡ length (plan_keys plan)
        → (r : Walked) → pointer_walk e.lib.size_max no_utf8_flags true root (plan_keys plan) ≡ r
        → set_text (set_planned e s w throw_mode saved z guards g root depth (checked_plan plan r))
          ≡ text_with (keys plan.nsegs (plan_keys plan)) v root depth
    unfolding checked_plan set_planned
    checked-text plan h (reached t) k = ready-text plan h
    checked-text plan h missing k = ready-text plan h
    checked-text plan h (Walked.failed status) k =
        dispatch-text throw_mode saved g status
        ∙ sym (
            ap
              (λ o. bytes_of (
                success (
                  given o (λ x. write_full (splicing s w) x depth)
                    (start_ctx (splicing s w) e.lib.size_max (value v) (not (plan.nsegs == 0))))))
              (walk_failed-set_at e.lib.size_max v (plan_keys plan) root status k))

    parsed-text :
        (pointer : Bytes) (p : Parsed)
        → view p ≡ parse_spec pointer depth
        → set_text (
            set_planned e s w throw_mode saved z guards g root depth
              (plan_checked e.lib.size_max root p))
          ≡ text_with (parse_spec pointer depth) v root depth
    unfolding plan_checked set_planned
    parsed-text pointer (planned plan) h =
        checked-text plan (parse_spec-count pointer depth plan.nsegs (plan_keys plan) (sym h))
          (pointer_walk e.lib.size_max no_utf8_flags true root (plan_keys plan)) refl
        ∙ ap (λ k. text_with k v root depth) h
    parsed-text pointer (Parsed.failed status) h =
        dispatch-text throw_mode saved g status ∙ ap (λ k. text_with k v root depth) h

  -- Where fastjson_pointer_set is given null, a Boolean, an integer or a string, or a reference to
  -- one, without FORCE_OBJECT, NUMERIC_CHECK, PARTIAL_OUTPUT_ON_ERROR and PRESERVE_ZERO_FRACTION, a
  -- depth from 1 to INT_MAX and a text that the parser reads; and where the C stack is large
  -- enough: it returns the text of the document in which the value stands at the pointer, and no
  -- text where the pointer is not one of the grammar or is beyond its limits, where it leads to no
  -- place of the document or to an ambiguous one, or where that document cannot be written.
  pub pointer_set-set_at :
      (relaxed : Bool) (json pointer : Bytes) (z : Zval) (n : ℕ) (guards : List Guard)
      → (g : Globals) (d : ReadDoc) (v : Val) → ((r : ℕ) → w.overflowed r ≡ false)
      → HasPlainFlags s
      → Stands s z v
      → 1 ≤ n
      → n ≤ 2147483647
      → read_doc_ex e.lib.parse json (base_flags relaxed) Extra.number_as_raw ≡ doc d
      → set_text (pointer_set e s w throw_mode relaxed json pointer z (pos n) guards g)
        ≡ bytes_of (
            success (
              given
                (edited e.lib.size_max (parse_spec pointer (effective_walk_depth e n)) v d.root)
                (λ x. write_full (splicing s w) x (effective_walk_depth e n))
                (start_ctx
                  (splicing s w)
                  e.lib.size_max
                  (value v)
                  (has_segments (parse_spec pointer (effective_walk_depth e n))))))
  unfolding pointer_set set_into plan_init
  pointer_set-set_at relaxed json pointer z n guards g d v room hf hz h1 h2 hd =
      rw (pointer_set, valid_depth_lem n h1 h2, hd)
        (parsed-text g.last_err z guards (begun throw_mode g) d.root (effective_walk_depth e n) v
          room (must_encode_lem s hf) (Stands-plain_value s hz) pointer
          (pointer_parse pointer (effective_walk_depth e n) settable_fail)
          (pointer_parse_lem pointer (effective_walk_depth e n)))
