-- ===== src/Path/Laws.antt =====
-- Laws of paths.
use mathlib.Core.Option
use text.Mathlib.TextLemmas.{nil-append}
use ftp_reolink.Base.{
  sym, suc, ◌<>◌, length, ◌≡◌, refl, ap, String, true, some, [], ◌∷◌, ◌++◌, arith,
}
use ftp_reolink.Path.{
  Component, FilePath, root_dir, cur_dir, parent_dir, prefix, normal, component_eq, file_name,
  drop_last, parent, starts_with, push_text,
}

-- `p` lies at `base` or below it.
abbrev pub Below : FilePath → FilePath → Type 0
Below base p = (rest : FilePath) × (p ≡ base ++ rest)

pub starts_with-Below : (p base : FilePath) → starts_with p base ≡ true → Below base p
unfolding starts_with
starts_with-Below p [] h = (p, refl)
starts_with-Below [] (b ∷ base) h = cc
starts_with-Below (c ∷ p) (b ∷ base) h =
    let (rest, e) = starts_with-Below p base (ground arith) in (rest, ground arith)

pub starts_with-append : (base rest : FilePath) → starts_with (base ++ rest) base ≡ true
unfolding starts_with
starts_with-append [] rest = refl
starts_with-append (c ∷ base) rest = ground (arith, starts_with-append base rest)

-- Two paths under one suffix are one path, when both end in a name.
pub file_name-append : (p : FilePath) (s : String) → file_name (p ++ (normal s ∷ [])) ≡ some s
unfolding file_name
file_name-append [] s = refl
file_name-append (root_dir ∷ []) s = refl
file_name-append (cur_dir ∷ []) s = refl
file_name-append (parent_dir ∷ []) s = refl
file_name-append (prefix t ∷ []) s = refl
file_name-append (normal t ∷ []) s = refl
file_name-append (c ∷ d ∷ p) s = file_name-append (d ∷ p) s

file_name-cons :
    (c : Component) (p : FilePath) {name : String}
    → file_name p ≡ some name
    → file_name (c ∷ p) ≡ some name
unfolding file_name
file_name-cons c [] e = cc
file_name-cons c (d ∷ p) e = e

-- A path with a text pushed to it ends in a name that ends in the text.
pub file_name-push_text :
    (p : FilePath) (t : String) → (name : String) × (file_name (push_text p t) ≡ some (name <> t))
unfolding file_name push_text
file_name-push_text [] t = ("", ap some (sym (nil-append t)))
file_name-push_text (normal s ∷ []) t = (s, refl)
file_name-push_text (root_dir ∷ []) t = ("", ap some (sym (nil-append t)))
file_name-push_text (cur_dir ∷ []) t = ("", ap some (sym (nil-append t)))
file_name-push_text (parent_dir ∷ []) t = ("", ap some (sym (nil-append t)))
file_name-push_text (prefix s ∷ []) t = ("", ap some (sym (nil-append t)))
file_name-push_text (c ∷ d ∷ p) t =
    let (name, e) = file_name-push_text (d ∷ p) t in
    (name, file_name-cons c (push_text (d ∷ p) t) e)

pub file_name-pushed :
    (p : FilePath) (t name : String)
    → file_name p ≡ some name
    → file_name (push_text p t) ≡ some (name <> t)
unfolding push_text file_name
file_name-pushed [] t name e = cc
file_name-pushed (normal s ∷ []) t name e = ap (λ u. some (u <> t)) (Option.some-injective s name e)
file_name-pushed (root_dir ∷ []) t name e = cc
file_name-pushed (cur_dir ∷ []) t name e = cc
file_name-pushed (parent_dir ∷ []) t name e = cc
file_name-pushed (prefix s ∷ []) t name e = cc
file_name-pushed (c ∷ d ∷ p) t name e =
    file_name-cons c (push_text (d ∷ p) t) (file_name-pushed (d ∷ p) t name e)

pub length-push_text :
    (p : FilePath) (t : String) {n : String}
    → file_name p ≡ some n
    → length (push_text p t) ≡ length p
unfolding file_name push_text
length-push_text [] t h = cc
length-push_text (normal s ∷ []) t h = refl
length-push_text (root_dir ∷ []) t h = cc
length-push_text (cur_dir ∷ []) t h = cc
length-push_text (parent_dir ∷ []) t h = cc
length-push_text (prefix s ∷ []) t h = cc
length-push_text (c ∷ d ∷ p) t h = ap suc (length-push_text (d ∷ p) t h)

length-drop_last :
    (c : Component) (p : FilePath) → suc (length (drop_last (c ∷ p))) ≡ suc (length p)
unfolding drop_last
length-drop_last c [] = refl
length-drop_last c (d ∷ p) = ap suc (length-drop_last d p)

pub length-parent : (p q : FilePath) → parent p ≡ some q → suc (length q) ≡ length p
unfolding parent
length-parent [] q h = cc
length-parent (root_dir ∷ []) q h = cc
length-parent (prefix s ∷ []) q h = cc
length-parent (cur_dir ∷ []) q h = ground arith
length-parent (parent_dir ∷ []) q h = ground arith
length-parent (normal s ∷ []) q h = ground arith
length-parent (c ∷ d ∷ p) q h = ground (arith, length-drop_last c (d ∷ p))
