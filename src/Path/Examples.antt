-- ===== src/Path/Examples.antt =====
-- Paths read from texts.
use ftp_reolink.Base.{◌≡◌, refl, [], ◌∷◌, string_dec}
use ftp_reolink.Path.{root_dir, parent_dir, normal, path_of}
use native.Mathlib.Decide.{ℕ_discrete}

path_of_text :
    path_of "/srv//reolink/./cam/../x"
    ≡ root_dir ∷ normal "srv" ∷ normal "reolink" ∷ normal "cam" ∷ parent_dir ∷ normal "x" ∷ []
unfolding path_of string_dec ℕ_discrete
path_of_text = refl

path_of_root : path_of "/" ≡ root_dir ∷ []
unfolding path_of string_dec ℕ_discrete
path_of_root = refl

path_of_empty : path_of "" ≡ []
unfolding path_of string_dec ℕ_discrete
path_of_empty = refl
