-- ===== src/Path.antt =====
-- `std::path` as the code uses it. A path is the list that `Path::components` yields, and two paths
-- are equal when these are, as `Path::eq` has it.
pub mod Laws
mod Examples
use ftp_reolink.Base.{
  ℕ, String, ◌<>◌, Bool, true, false, ◌&&◌, Option, none, some, List, [], ◌∷◌, ◌++◌, ◌==◌,
  string_eq, string_dec, nat_eq, Eq, if◌then◌else◌,
}
use ftp_reolink.Base.Text.{split}

pub data Component : Type 0 where
  root_dir cur_dir parent_dir : Component
  prefix : String → Component
  normal : String → Component

abbrev pub FilePath : Type 0
FilePath = List Component

unfoldable pub component_dec : Discrete Component
component_dec = hlevel string_dec

unfoldable pub path_dec : Discrete FilePath
path_dec = hlevel component_dec

instance abbrev pub component_eq : Eq Component
component_eq = record { dec = component_dec }

instance abbrev pub path_eq : Eq FilePath
path_eq = record { dec = path_dec }

-- `Path::join`: an absolute right side replaces the left, and `.` vanishes inside a path.
unfoldable pub join : FilePath → FilePath → FilePath
join [] q = q
join (c ∷ p) (root_dir ∷ q) = root_dir ∷ q
join (c ∷ p) (cur_dir ∷ q) = (c ∷ p) ++ q
join (c ∷ p) q = (c ∷ p) ++ q

-- `Path::join` with a name that is one normal component.
abbrev pub join_name : FilePath → String → FilePath
join_name p s = p ++ (normal s ∷ [])

-- `Path::file_name`: the last component, if it is normal.
unfoldable pub file_name : FilePath → Option String
file_name [] = none
file_name (normal s ∷ []) = some s
file_name (c ∷ []) = none
file_name (c ∷ d ∷ p) = file_name (d ∷ p)

unfoldable pub drop_last : FilePath → FilePath
drop_last [] = []
drop_last (c ∷ []) = []
drop_last (c ∷ d ∷ p) = c ∷ drop_last (d ∷ p)

-- `Path::parent`
unfoldable pub parent : FilePath → Option FilePath
unfolding drop_last
parent [] = none
parent (root_dir ∷ []) = none
parent (prefix s ∷ []) = none
parent (c ∷ []) = some []
parent (c ∷ d ∷ p) = some (drop_last (c ∷ d ∷ p))

-- `Path::starts_with`
unfoldable pub starts_with : FilePath → FilePath → Bool
starts_with p [] = true
starts_with [] (b ∷ base) = false
starts_with (c ∷ p) (b ∷ base) = c == b && starts_with p base

-- `OsString::push` on a path: the text goes to the end of the last name.
unfoldable pub push_text : FilePath → String → FilePath
push_text [] t = normal t ∷ []
push_text (normal s ∷ []) t = normal (s <> t) ∷ []
push_text (c ∷ []) t = c ∷ normal t ∷ []
push_text (c ∷ d ∷ p) t = c ∷ push_text (d ∷ p) t

unfoldable pub inner : List String → FilePath
inner [] = []
inner (s ∷ rest) =
    let more = inner rest in
    if s == ""
    then more
    else if s == "."
    then more
    else if s == ".."
    then parent_dir ∷ more
    else normal s ∷ more

unfoldable pub first : List String → FilePath
unfolding inner
first [] = []
first (s ∷ []) = if s == "." then cur_dir ∷ [] else inner (s ∷ [])
first (s ∷ rest) =
    if s == ""
    then root_dir ∷ inner rest
    else if s == "."
    then cur_dir ∷ inner rest
    else inner (s ∷ rest)

-- `Path::new(text).components()` on Unix
unfoldable pub path_of : String → FilePath
unfolding split first
path_of s = first (split b'/' s)
