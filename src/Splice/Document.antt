-- ===== src/Splice/Document.antt =====
-- fastjson_imut_pointer_set_write of fastjson_pointer_splice.c writes the edited document: the
-- composition of the splice writer, where the C stack does not overflow.
use fastjson.Prelude.{
  ℕ, Bool, true, false, not, Option, none, some, List, [], ◌∷◌, Bytes, ◌≡◌, refl, sym, ap, ◌∙◌,
  arith, ◌==◌, length,
}
use fastjson.Doc.{Val}
use fastjson.Pointer.{Plan, Seg, plan_keys, seg_bytes}
use fastjson.Splice.{Setting, Ctx, Written, ok, stop, value}
use fastjson.Splice.Full.{write_full}
use fastjson.Splice.Edit.{
  put_replacement, write_at, SetResult, written, failed, root_result, edit_result, start_ctx,
  imut_pointer_set_write,
}
use fastjson.Splice.SetAt.{set_at}
use fastjson.Splice.Steps.{success, given}
use fastjson.Splice.Refines.{write_at-set_at}

-- The text of a run that succeeds.
abbrev pub text_of : SetResult → Option Bytes
text_of (written t) = some t
text_of (failed status) = none

abbrev pub bytes_of : Option Ctx → Option Bytes
bytes_of none = none
bytes_of (some c) = some c.buf.bytes

module _ (s : Setting) (safe : (r : ℕ) → s.overflowed r ≡ false) (size_max : ℕ) (new : Val) where
  text_of-root_result : (w : Written) → text_of (root_result w) ≡ bytes_of (success w)
  unfolding root_result
  text_of-root_result (ok c) = refl
  text_of-root_result (stop c) = refl

  text_of-edit_result : (w : Written) → text_of (edit_result w) ≡ bytes_of (success w)
  unfolding edit_result
  text_of-edit_result (ok c) = refl
  text_of-edit_result (stop c) = refl

  imut_pointer_set_write-root :
      (plan : Plan) (root : Val) (limit : ℕ)
      → (plan.nsegs == 0) ≡ true
      → imut_pointer_set_write s size_max (value new) root plan limit
        ≡ root_result (write_full s new limit (start_ctx s size_max (value new) false))
  unfolding imut_pointer_set_write put_replacement
  imut_pointer_set_write-root plan root limit e = rw (imut_pointer_set_write, e)

  imut_pointer_set_write-edit :
      (plan : Plan) (root : Val) (limit : ℕ)
      → (plan.nsegs == 0) ≡ false
      → imut_pointer_set_write s size_max (value new) root plan limit
        ≡ edit_result (
            write_at s size_max
              (value new)
              (plan_keys plan)
              root
              limit
              (start_ctx s size_max (value new) true))
  unfolding imut_pointer_set_write
  imut_pointer_set_write-edit plan root limit e = rw (imut_pointer_set_write, e)

  abbrev plan_with : List Seg → Bytes → ℕ → Plan
  plan_with segs storage n = record { segs = segs; storage = storage; nsegs = n }

  abbrev outcome : List Bytes → Val → ℕ → Bool → Option Bytes
  outcome keys root limit edits = bytes_of (
      success (
        given (set_at size_max keys new root) (λ e. write_full s e limit)
          (start_ctx s size_max (value new) edits)))

  set_root :
      (storage : Bytes) (n : ℕ) (root : Val) (limit : ℕ)
      → (n == 0) ≡ true
      → text_of (imut_pointer_set_write s size_max (value new) root (plan_with [] storage n) limit)
        ≡ outcome [] root limit (not (n == 0))
  unfolding set_at
  set_root storage n root limit z =
      ap text_of (imut_pointer_set_write-root (plan_with [] storage n) root limit z)
      ∙ text_of-root_result (write_full s new limit (start_ctx s size_max (value new) false))
      ∙ ap (λ b. outcome [] root limit (not b)) (sym z)

  set_edit :
      (seg : Seg) (segs : List Seg) (storage : Bytes) (n : ℕ) (root : Val) (limit : ℕ)
      → (n == 0) ≡ false
      → text_of (
          imut_pointer_set_write s size_max
            (value new)
            root
            (plan_with (seg ∷ segs) storage n)
            limit)
        ≡ outcome (plan_keys (plan_with (seg ∷ segs) storage n)) root limit (not (n == 0))
  set_edit seg segs storage n root limit z =
      ap text_of (imut_pointer_set_write-edit (plan_with (seg ∷ segs) storage n) root limit z)
      ∙ text_of-edit_result (
          write_at s size_max (value new) (plan_keys (plan_with (seg ∷ segs) storage n)) root limit
            start)
      ∙ ap bytes_of (
          write_at-set_at s safe size_max new (seg_bytes storage seg)
            (plan_keys (plan_with segs storage n)) root limit start)
      ∙ ap (λ b. outcome (plan_keys (plan_with (seg ∷ segs) storage n)) root limit (not b)) (sym z)
    where
      start : Ctx
      start = start_ctx s size_max (value new) true

  set_any :
      (segs : List Seg) (storage : Bytes) (n : ℕ) (root : Val) (limit : ℕ)
      → n ≡ length segs
      → text_of
          (imut_pointer_set_write s size_max (value new) root (plan_with segs storage n) limit)
        ≡ outcome (plan_keys (plan_with segs storage n)) root limit (not (n == 0))
  set_any [] storage n root limit e = set_root storage n root limit (ground arith)
  set_any (seg ∷ segs) storage n root limit e =
      set_edit seg segs storage n root limit (ground arith)

  -- A run of fastjson_imut_pointer_set_write with a value replacement and no C stack overflow
  -- writes the text that fj_splice_write_full writes of the document that `set_at` makes of the
  -- root, the keys of the plan and the value; where `set_at` makes none, or that document cannot
  -- be written, the run fails. The plan has as many segments as it says.
  pub imut_pointer_set_write-set_at :
      (plan : Plan) (root : Val) (limit : ℕ)
      → plan.nsegs ≡ length plan.segs
      → text_of (imut_pointer_set_write s size_max (value new) root plan limit)
        ≡ bytes_of (
            success (
              given
                (set_at size_max (plan_keys plan) new root)
                (λ e. write_full s e limit)
                (start_ctx s size_max (value new) (not (plan.nsegs == 0)))))
  imut_pointer_set_write-set_at plan root limit e =
      set_any plan.segs plan.storage plan.nsegs root limit e
