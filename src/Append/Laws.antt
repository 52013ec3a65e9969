-- ===== src/Append/Laws.antt =====
-- About `staging_path` and `classify_offset` of src/append.rs.
use text.Mathlib.TextLemmas.{append_cancel_left, append-nil}
use text.Mathlib.TextEquality.{eq_iff}
use ftp_reolink.Base.{ℕ, ◌≡◌, ◌≢◌, ◌<◌, ◌↔◌, ap, sym, ◌∙◌, String, ◌<>◌, [], ◌∷◌, arith}
use ftp_reolink.Path.{FilePath, root_dir, cur_dir, parent_dir, prefix, normal, push_text}
use ftp_reolink.Append.{proceed, overlap, gap, classify_offset, staging_path, staging_suffix}

push_text-ne : (p : FilePath) (t : String) → t ≢ "" → p ≢ push_text p t
unfolding push_text
push_text-ne [] t h e = cc
push_text-ne (normal s ∷ []) t h e =
    h (
      sym
        (append_cancel_left s "" t (append-nil s ∙ same (normal s ∷ []) (normal (s <> t) ∷ []) e)))
  where
    text : FilePath → String
    text (normal a ∷ q) = a
    text (root_dir ∷ q) = s
    text (cur_dir ∷ q) = s
    text (parent_dir ∷ q) = s
    text (prefix a ∷ q) = s
    text [] = s

    same : (p q : FilePath) → p ≡ q → text p ≡ text q
    same p q e = ap text e
push_text-ne (root_dir ∷ []) t h e = cc
push_text-ne (cur_dir ∷ []) t h e = cc
push_text-ne (parent_dir ∷ []) t h e = cc
push_text-ne (prefix a ∷ []) t h e = cc
push_text-ne (c ∷ d ∷ p) t h e = push_text-ne (d ∷ p) t h (ground arith)

suffix_not_empty : staging_suffix ≢ ""
suffix_not_empty = ground (arith, eq_iff staging_suffix "")

-- A staging file is never the file it stages.
pub staging_path-ne : (p : FilePath) → p ≢ staging_path p
unfolding staging_path
staging_path-ne p = push_text-ne p staging_suffix suffix_not_empty

-- A store may start exactly at the end of what is staged; below it overlaps, above it leaves a gap.
pub classify_offset_iff :
    (start size : ℕ)
    → ((classify_offset start size ≡ proceed) ↔ (start ≡ size))
      × ((classify_offset start size ≡ overlap) ↔ (start < size))
      × ((classify_offset start size ≡ gap) ↔ (size < start))
unfolding classify_offset
classify_offset_iff start size = (
  (λ h. ground arith, λ h. ground arith),
  (λ h. ground arith, λ h. ground arith),
  (λ h. ground arith, λ h. ground arith),
)
