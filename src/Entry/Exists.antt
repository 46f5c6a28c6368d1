-- ===== src/Entry/Exists.antt =====
-- What fastjson_pointer_exists of fastjson_decode.c returns.
use fastjson.Prelude.{
  Bool, true, false, Option, none, some, Bytes, if◌then◌else◌, ◌≡◌, ◌↔◌, refl, sym, ap, subst,
}
use fastjson.Doc.{Val}
use fastjson.Pointer.{Status, ok, settable_fail, Parsed, planned, plan_keys, pointer_parse}
use fastjson.Pointer.Walk.{
  Walked, reached, missing, resolved, resolve_parsed, resolve_limited, pointer_walk,
}
use fastjson.Pointer.Walk.Limited.{Targets, resolve_limited_iff}
use fastjson.Reading.{ReadErr, ReadDoc, Parse, doc, unread, DecodeFlags, read_doc_ex, no_extra}
use fastjson.Errors.{
  ErrorState, returned, throw_mode_init, throw_error, read_failed, dispatch_error,
}
use fastjson.Entry.{
  Library, is_refused, target_exists, resolved_exists, read_exists, pointer_exists, utf8_flags,
}

module _ (lib : Library) (json pointer : Bytes) (flags : DecodeFlags) where
  abbrev parsed : Parse
  parsed = read_doc_ex lib.parse json flags no_extra

  abbrev TargetsIn : ReadDoc → Val → Type 0
  TargetsIn d t = Targets lib.size_max (utf8_flags flags) d.root pointer 0 t

  -- The status is ok wherever there is a target.
  abbrev Good : Status × Option Val → Type 0
  Good (status, none) = Unit
  Good (status, some t) = status ≡ ok

  resolved-Good : (w : Walked) → Good (resolved w)
  unfolding resolved
  resolved-Good (reached v) = refl
  resolved-Good missing = tt
  resolved-Good (Walked.failed status) = tt

  resolve_parsed-Good :
      (root : Val) (p : Parsed) → Good (resolve_parsed lib.size_max root (utf8_flags flags) p)
  unfolding resolve_parsed
  resolve_parsed-Good root (planned plan) =
      resolved-Good (pointer_walk lib.size_max (utf8_flags flags) false root (plan_keys plan))
  resolve_parsed-Good root (Parsed.failed status) = tt

  dispatched :
      (status : Status) (mode : Bool) (saved : ErrorState)
      → (dispatch_error status mode saved false).0 ≡ returned true
      → ⊥
  unfolding dispatch_error throw_error
  dispatched status true saved h = absurd (cc h)
  dispatched status false saved h = absurd (cc h)

  only_target :
      (mode : Bool) (saved state : ErrorState) (r : Status × Option Val)
      → Good r
      → (resolved_exists mode saved state r).0 ≡ returned true
      → (t : Val) × (r ≡ (ok, some t))
  unfolding resolved_exists target_exists
  only_target mode saved state (status, some t) g h = (t, ap (λ x. (x, some t)) g)
  only_target mode saved state (status, none) g h = absurd (choose (is_refused status) h)
    where
      choose :
          (b : Bool)
          → (if b then dispatch_error status mode saved false else target_exists none state).0
            ≡ returned true
          → ⊥
      choose true e = dispatched status mode saved e
      choose false e = absurd (cc e)

  target_only :
      (mode : Bool) (saved state : ErrorState) (r : Status × Option Val) (t : Val)
      → r ≡ (ok, some t)
      → (resolved_exists mode saved state r).0 ≡ returned true
  unfolding resolved_exists target_exists
  target_only mode saved state r t e =
      subst (λ x. (resolved_exists mode saved state x).0 ≡ returned true) (sym e) refl

  unread_false :
      (mode : Bool) (saved : ErrorState) (err : ReadErr)
      → (read_failed lib.locate_pos mode saved json err false).0 ≡ returned true
      → ⊥
  unfolding read_failed throw_error
  unread_false true saved err h = absurd (cc h)
  unread_false false saved err h = absurd (cc h)

  found :
      (saved state : ErrorState) (p : Parse)
      → (read_exists lib flags json pointer saved state p).0 ≡ returned true
      → (d : ReadDoc) × (t : Val) × (p ≡ doc d) × TargetsIn d t
  unfolding read_exists resolve_limited
  found saved state (unread err) h = absurd (unread_false flags.throw_on_error saved err h)
  found saved state (doc d) h =
      let (t, e) =
        only_target flags.throw_on_error saved state
          (resolve_limited lib.size_max d.root pointer 0 (utf8_flags flags))
          (resolve_parsed-Good d.root (pointer_parse pointer 0 settable_fail)) h in
      (d, t, refl, (resolve_limited_iff lib.size_max (utf8_flags flags) d.root pointer 0 t).0 e)

  -- fastjson_pointer_exists returns true exactly where the document is read, and the pointer is well
  -- formed, is within the segment cap, and its keys lead to a value of the document.
  pub pointer_exists_iff :
      (before : ErrorState)
      → ((pointer_exists lib json pointer flags before).0 ≡ returned true) ↔ (
          (d : ReadDoc) × (t : Val) × (read_doc_ex lib.parse json flags no_extra ≡ doc d)
          × Targets lib.size_max (utf8_flags flags) d.root pointer 0 t)
  unfolding pointer_exists read_exists
  pointer_exists_iff before = (
    found before (throw_mode_init flags.throw_on_error before) parsed,
    λ (d, t, e, w).
        subst
          (λ p.
            (read_exists lib flags json pointer before (throw_mode_init flags.throw_on_error before)
              p).0
            ≡ returned true)
          (sym e)
          (target_only flags.throw_on_error before (throw_mode_init flags.throw_on_error before)
            (resolve_limited lib.size_max d.root pointer 0 (utf8_flags flags)) t
            ((resolve_limited_iff lib.size_max (utf8_flags flags) d.root pointer 0 t).1 w)),
  )
