-- ===== src/Decode/Values.antt =====
-- What fastjson_decode and fastjson_merge_patch of fastjson_decode.c return, from the document to the
-- PHP value and the recorded error.
use fastjson.Prelude.{
  ℕ, Bool, true, false, none, some, Bytes, ◌+◌, length, leb, if◌then◌else◌, ◌≡◌, refl, ap, ◌∙◌,
}
use fastjson.Doc.{Val}
use fastjson.Depth.Height.{height}
use fastjson.Reading.{ReadDoc, doc, no_extra, read_doc_ex}
use fastjson.Merge.Patch
use fastjson.Merge.Refines.{merge_patch_bounded_lem}
use fastjson.KeyCache.{key_share_push}
use fastjson.Errors.{
  ErrorState, error_state_set, cleared, error_depth, Reply, returned, thrown, throw_error,
}
use fastjson.Walk.{Decoded, null, too_deep}
use fastjson.Walk.Build.{build, names_fit}
use fastjson.Walk.Limits.{unless_deep}
use fastjson.Walk.Refines.{walk-build}
use fastjson.Decode.{
  Engine, Options, effective_walk_depth, depth_message, walk_error, walk_failed, valid_depth,
  finish, decode_into, decode, merge_finish, merge_docs, merge_into, merge_patch, walk_merged,
  walk_setting,
}

-- How a call ends that has a value, and one whose document is too deep.
abbrev pub gives : Options → (saved : ErrorState) → Decoded → Reply Decoded × ErrorState
gives o saved z = (returned z, if o.flags.throw_on_error then saved else cleared)

abbrev pub refuses : Options → (saved : ErrorState) → Reply Decoded × ErrorState
refuses o saved =
    if o.flags.throw_on_error
    then (thrown error_depth depth_message, saved)
    else (returned null, error_state_set error_depth (some depth_message))

refused :
    (b : Bool) (saved : ErrorState)
    → walk_failed b depth_message saved too_deep ≡ (
        if b
        then (thrown error_depth depth_message, saved)
        else (returned null, error_state_set error_depth (some depth_message)))
unfolding walk_failed walk_error throw_error
refused true saved = refl
refused false saved = refl

finish-unless_deep :
    (e : Engine) (o : Options) (saved : ErrorState) (b : Bool) (z : Decoded)
    → finish e o saved (unless_deep b z) ≡ (if b then refuses o saved else gives o saved z)
unfolding finish
finish-unless_deep e o saved true z = refused o.flags.throw_on_error saved
finish-unless_deep e o saved false z = refl

module _ (e : Engine) (o : Options) (n : ℕ) where
  module _ (room : (r : ℕ) → (walk_setting e o).overflowed r ≡ false) where
    -- For a depth from 1 to INT_MAX and a text that the parser reads, where the C stack is large
    -- enough and no name of a document that becomes objects starts with a NUL byte: where the
    -- containers of the document nest less deep than the effective depth, fastjson_decode returns
    -- the value that the document stands for, and clears the recorded error or, with
    -- THROW_ON_ERROR, leaves it; otherwise it records the depth error and returns null, or throws
    -- it and leaves the recorded error.
    pub decode-build :
        (json : Bytes) (saved : ErrorState) (d : ReadDoc)
        → valid_depth o.depth ≡ some n
        → read_doc_ex e.lib.parse json o.flags no_extra ≡ doc d
        → names_fit (walk_setting e o) d.root ≡ true
        → decode e json o saved ≡ (
            if leb (effective_walk_depth e n) (height d.root)
            then refuses o saved
            else gives o saved (build (walk_setting e o) d.root))
    unfolding decode decode_into
    decode-build json saved d hn hd fit =
        rw (decode, hn, hd)
          (ap (finish e o saved) (
              walk-build (walk_setting e o) room d.root (effective_walk_depth e n)
                (key_share_push (e.read_size d)) fit)
            ∙ finish-unless_deep e o saved (leb (effective_walk_depth e n) (height d.root))
                (build (walk_setting e o) d.root))

    merged_lem :
        (saved : ErrorState) (len : ℕ) (m : Val) (b : Bool)
        → names_fit (walk_setting e o) m ≡ true
        → leb (effective_walk_depth e n) (height m) ≡ b
        → merge_finish e o saved (walk_merged e o n len (if b then none else some m))
          ≡ (if b then refuses o saved else gives o saved (build (walk_setting e o) m))
    unfolding merge_finish
    merged_lem saved len m true fit h = refused o.flags.throw_on_error saved
    merged_lem saved len m false fit h =
        ap (λ x. merge_finish e o saved (some x))
          (walk-build (walk_setting e o) room m (effective_walk_depth e n) (key_share_push len) fit
            ∙ ap (λ b. unless_deep b (build (walk_setting e o) m)) h)

    -- Under the same conditions on the merged document, fastjson_merge_patch returns the value of
    -- the document that MergePatch of RFC 7396 makes of the two texts, with the members of an
    -- object in canonical form, where that nests less deep than the effective depth, and ends with
    -- the depth error otherwise; the recorded error is cleared, set or left in the same way.
    pub merge_patch-build :
        (overflowed : ℕ → Bool) (target patch : Bytes) (saved : ErrorState) (t p : ReadDoc)
        → ((r : ℕ) → overflowed r ≡ false)
        → valid_depth o.depth ≡ some n
        → read_doc_ex e.lib.parse target o.flags no_extra ≡ doc t
        → read_doc_ex e.lib.parse patch o.flags no_extra ≡ doc p
        → names_fit (walk_setting e o) (Patch.merge_patch p.root (some t.root)) ≡ true
        → merge_patch e overflowed target patch o saved ≡ (
            if leb (effective_walk_depth e n) (height (Patch.merge_patch p.root (some t.root)))
            then refuses o saved
            else gives o saved (build (walk_setting e o) (Patch.merge_patch p.root (some t.root))))
    unfolding merge_patch merge_into merge_docs
    merge_patch-build overflowed target patch saved t p fits hn ht hp fit =
        rw (merge_patch, hn, ht, hp)
          (ap (λ x. merge_finish e o saved (walk_merged e o n (length target + length patch) x))
              (merge_patch_bounded_lem overflowed (effective_walk_depth e n) (some t.root) p.root
                fits)
            ∙ merged_lem saved (length target + length patch)
                (Patch.merge_patch p.root (some t.root))
                (leb (effective_walk_depth e n) (height (Patch.merge_patch p.root (some t.root))))
                fit refl)
