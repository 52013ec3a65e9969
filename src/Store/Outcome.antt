-- ===== src/Store/Outcome.antt =====
-- About `store_stream` of src/backend.rs: what it ends with.
use ftp_reolink.Base.{
  String, ℕ, ◌≡◌, refl, sym, ◌∙◌, true, false, some, List, Result, ok, err, All, length,
}
use ftp_reolink.Path.{FilePath, parent, file_name}
use ftp_reolink.Path.Laws.{length-push_text}
use ftp_reolink.Append.{staging_path, staging_suffix}
use ftp_reolink.Append.Laws.{staging_path-ne}
use ftp_reolink.Disk.{Disk, exists_effect, metadata_effect, open_effect}
use ftp_reolink.Disk.Act.{World, call, attempt}
use ftp_reolink.Disk.Triple.{Ensures-call, Ensures-attempt}
use ftp_reolink.Store.{StoreError, Input, os, flush_effect, store_stream}
use ftp_reolink.Store.Atomic.{
  Alone, Reason, fault, offset, broke, Ready, Free, Post, Step, and_then, step_os, alone, excuse,
  exists-Ready, step_refuse, measures, Measured, step_size, step_offset,
}
use ftp_reolink.Store.Publish.{
  Writing, Sent, Published, step_parent, opened, step_answer, step_copied, step_finalize,
}

module _ (MayFail : Type 0) (p : FilePath) (before : List ℕ) (start : ℕ) (input : Input)
    (same_length : length (staging_path p) ≡ length p) where
  abbrev s : FilePath
  s = staging_path p

  abbrev Pr : Disk → Type 0
  Pr = Ready MayFail p (staging_path p) (staging_path-ne p) before start input

  step_exists :
      Step MayFail p
        (staging_path p)
        (staging_path-ne p)
        before
        start
        input
        Pr
        (os (exists_effect p))
        (λ present d. Pr d × (present ≡ false))
  step_exists =
      step_os MayFail p (staging_path p) (staging_path-ne p) before start input Pr (exists_effect p)
        (λ present d. Pr d × (present ≡ false))
        (λ d k.
          rw (exists-Ready MayFail p (staging_path p) (staging_path-ne p) before start input d k)
            (k, refl))
        (λ d k. k.free)

  step_measure :
      Step MayFail p
        (staging_path p)
        (staging_path-ne p)
        before
        start
        input
        {E = StoreError}
        Pr
        (attempt (call (metadata_effect s)))
        (λ r d. Pr d × Measured MayFail p (staging_path p) (staging_path-ne p) before start input r)
  step_measure =
      Ensures-attempt _
        (Ensures-call
          (λ r d.
            Pr d × Measured MayFail p (staging_path p) (staging_path-ne p) before start input r)
          (metadata_effect s)
          (alone MayFail p (staging_path p) (staging_path-ne p) before start input Pr)
          (measures MayFail p (staging_path p) (staging_path-ne p) before start input)
          (λ t r q d k.
            (k, excuse MayFail p (staging_path p) (staging_path-ne p) before start input t r q)))
        (λ r d k. k)

  pub store_stream_step :
      Step MayFail p
        (staging_path p)
        (staging_path-ne p)
        before
        start
        input
        Pr
        (store_stream p start input)
        (λ n d.
          Published MayFail p
            (staging_path p)
            (staging_path-ne p)
            before
            start
            input
            same_length
            n
            d)
  unfolding store_stream
  store_stream_step =
      and_then MayFail p (staging_path p) (staging_path-ne p) before start input Pr _ _ _ _
        step_exists
        λ present.
          and_then MayFail p (staging_path p) (staging_path-ne p) before start input _ _
            (λ u d. Pr d) _ _
            (step_refuse MayFail p (staging_path p) (staging_path-ne p) before start input present)
            λ _.
              and_then MayFail p (staging_path p) (staging_path-ne p) before start input Pr _ _ _ _
                step_measure
                λ found.
                  and_then MayFail p (staging_path p) (staging_path-ne p) before start input _ _ _ _
                    _
                    (step_size MayFail p (staging_path p) (staging_path-ne p) before start input
                      found)
                    λ size.
                      and_then MayFail p (staging_path p) (staging_path-ne p) before start input _ _
                        _ _ _
                        (step_offset MayFail p (staging_path p) (staging_path-ne p) before start
                          input size)
                        λ _.
                          and_then MayFail p (staging_path p) (staging_path-ne p) before start input
                            _ _ _ _ _
                            (step_parent MayFail p (staging_path p) (staging_path-ne p) before start
                              input same_length (parent s) refl)
                            λ _.
                              and_then MayFail p (staging_path p) (staging_path-ne p) before start
                                input _ _ _ _ _
                                (step_os MayFail p (staging_path p) (staging_path-ne p) before start
                                  input _ (open_effect true s)
                                  (λ j d.
                                    Writing MayFail p (staging_path p) (staging_path-ne p) before
                                      start input same_length j before d)
                                  (opened MayFail p (staging_path p) (staging_path-ne p) before
                                    start input same_length)
                                  (λ d k. k.0))
                                λ j.
                                  and_then MayFail p (staging_path p) (staging_path-ne p) before
                                    start input _ _ _ _ _
                                    (step_answer MayFail p (staging_path p) (staging_path-ne p)
                                      before start input same_length j)
                                    λ answer.
                                      and_then MayFail p (staging_path p) (staging_path-ne p) before
                                        start input _ _ _ _ _
                                        (step_copied MayFail p (staging_path p) (staging_path-ne p)
                                          before start input same_length j answer)
                                        λ n.
                                          and_then MayFail p (staging_path p) (staging_path-ne p)
                                            before start input _ _
                                            (λ u d.
                                              Sent MayFail p (staging_path p) (staging_path-ne p)
                                                before start input same_length j n d)
                                            _ _
                                            (step_os MayFail p (staging_path p) (staging_path-ne p)
                                              before start input _ flush_effect
                                              (λ u d.
                                                Sent MayFail p (staging_path p) (staging_path-ne p)
                                                  before start input same_length j n d)
                                              (λ d k. k) (λ d k. k.0.0))
                                            λ _.
                                              step_finalize MayFail p (staging_path p)
                                                (staging_path-ne p) before start input same_length j
                                                n

-- What a store of `input` at offset `start` over the staged bytes `before` ends with.
abbrev pub Outcome :
    (MayFail : Type 0) (p : FilePath) (before : List ℕ) (start : ℕ) (input : Input)
    → length (staging_path p) ≡ length p
    → Result StoreError ℕ
    → Disk
    → Type 0
Outcome MayFail p before start input h (ok n) d =
    Published MayFail p (staging_path p) (staging_path-ne p) before start input h n d
Outcome MayFail p before start input h (err e) d =
    Free MayFail p (staging_path p) (staging_path-ne p) before start input d

pub named_length :
    (p : FilePath) {name : String} → file_name p ≡ some name → length (staging_path p) ≡ length p
unfolding staging_path
named_length p e = length-push_text p staging_suffix e

-- If nobody else touches the disk, the final name is free, the staging file holds `before` (or there
-- is none, and `before` is empty) and no file is in the way of the directories, then whatever calls
-- fail: either the store returns the number of bytes sent, the offset was the end of `before`, and
-- the final name leads to `before` followed by all bytes sent; or it returns an error and the final
-- name is still free.
pub store_stream_atomic :
    (p : FilePath) (name : String) (before : List ℕ) (start : ℕ) (input : Input) (w : World)
    → (named : file_name p ≡ some name) → All (Alone Unit) w.turns
    → Ready Unit p (staging_path p) (staging_path-ne p) before start input w.disk
    → Outcome Unit p before start input
        (named_length p named)
        (store_stream p start input w).0
        (store_stream p start input w).1.disk
store_stream_atomic p name before start input w named r k =
    outcome _ _ ((store_stream_step Unit p before start input (named_length p named)).at w r k).1
  where
    outcome :
        (x : Result StoreError ℕ) (d : Disk)
        → Post Unit p
            (staging_path p)
            (staging_path-ne p)
            before
            start
            input
            (Published Unit p
              (staging_path p)
              (staging_path-ne p)
              before
              start
              input
              (named_length p named))
            x
            d
        → Outcome Unit p before start input (named_length p named) x d
    outcome (ok n) d h = h
    outcome (err e) d h = h

-- If moreover no call fails, the offset is the end of `before` and the stream does not break off,
-- then the store succeeds and publishes.
pub store_stream_publishes :
    (p : FilePath) (name : String) (before : List ℕ) (input : Input) (w : World)
    → (named : file_name p ≡ some name) → All (Alone ⊥) w.turns
    → Ready ⊥ p (staging_path p) (staging_path-ne p) before (length before) input w.disk
    → input.breaks ≡ false
    → (n : ℕ) × ((store_stream p (length before) input w).0 ≡ ok n)
      × Published ⊥ p
          (staging_path p)
          (staging_path-ne p)
          before
          (length before)
          input
          (named_length p named)
          n
          (store_stream p (length before) input w).1.disk
store_stream_publishes p name before input w named r k whole =
    succeeds _ _
      ((store_stream_step ⊥ p before (length before) input (named_length p named)).at w r k).1
  where
    no_reason : Reason ⊥ p (staging_path p) (staging_path-ne p) before (length before) input → ⊥
    no_reason (fault h) = h
    no_reason (offset h) = h refl
    no_reason (broke h) = cc (sym h ∙ whole)

    succeeds :
        (x : Result StoreError ℕ) (d : Disk)
        → Post ⊥ p
            (staging_path p)
            (staging_path-ne p)
            before
            (length before)
            input
            (Published ⊥ p
              (staging_path p)
              (staging_path-ne p)
              before
              (length before)
              input
              (named_length p named))
            x
            d
        → (n : ℕ) × (x ≡ ok n)
          × Published ⊥ p
              (staging_path p)
              (staging_path-ne p)
              before
              (length before)
              input
              (named_length p named)
              n
              d
    succeeds (ok n) d h = (n, refl, h)
    succeeds (err e) d h = absurd (no_reason h.1)
