-- ===== src/Scope/Examples.antt =====
-- The unit tests of src/paths.rs, and the theorems at concrete file systems.
use text.Mathlib.TextEquality.{eq_iff}
use ftp_reolink.Base.{
  ◌≡◌, arith, ◌≢◌, refl, String, Option, none, some, List, [], ◌∷◌, ◌++◌, ◌==◌, ok, err, string_dec,
  if◌then◌else◌,
}
use ftp_reolink.Base.Dict.{lookup, insert, keys}
use ftp_reolink.Path.{
  FilePath, root_dir, parent_dir, normal, path_eq, path_dec, component_dec, starts_with,
}
use ftp_reolink.Scope.{
  traversal, ScopeMap, single, multi, list_root, normalize, ascend, contained, resolve,
}
use ftp_reolink.Scope.Jail.{InScope, resolve-Below, resolve-climbs}
use ftp_reolink.Scope.Exact.{names, NoLinks, resolve_plain}

abbrev cam_dir : FilePath
cam_dir = root_dir ∷ normal "srv" ∷ normal "front-door" ∷ []

abbrev outside_dir : FilePath
outside_dir = root_dir ∷ normal "tmp" ∷ []

-- `/srv/front-door` exists, and `/srv/front-door/escape` is a link to `/tmp`.
abbrev linked : FilePath → Option FilePath
linked p =
    if p == cam_dir
    then some cam_dir
    else if p == cam_dir ++ (normal "escape" ∷ [])
    then some outside_dir
    else none

-- Only `/srv/front-door` exists.
abbrev plain : FilePath → Option FilePath
plain p = if p == cam_dir then some p else none

abbrev clip : FilePath
clip = root_dir ∷ normal "day" ∷ normal "clip.mp4" ∷ []

abbrev cams : ScopeMap
cams = record { roots = ("front-door", cam_dir) ∷ []; single_root = none }

multi_root_lists_only_allowed_names :
    list_root (multi (insert "front-door" cam_dir (insert "driveway" outside_dir [])))
    ≡ "driveway" ∷ "front-door" ∷ []
unfolding list_root multi insert keys
multi_root_lists_only_allowed_names = refl

rejects_symlink_escape_nonexistent_leaf :
    resolve linked (single cam_dir) (root_dir ∷ normal "escape" ∷ normal "nope" ∷ [])
    ≡ err traversal
unfolding resolve contained ascend single normalize path_dec component_dec string_dec starts_with
rejects_symlink_escape_nonexistent_leaf = refl

clip_resolves :
    resolve plain cams (root_dir ∷ normal "front-door" ∷ clip)
    ≡ ok (cam_dir ++ (normal "day" ∷ normal "clip.mp4" ∷ []))
unfolding resolve contained ascend normalize path_dec component_dec string_dec starts_with lookup
clip_resolves = refl

resolve-Below_example :
    (parts : List String) × (normalize (root_dir ∷ normal "front-door" ∷ clip) ≡ ok parts)
    × InScope plain cams parts (cam_dir ++ (normal "day" ∷ normal "clip.mp4" ∷ []))
resolve-Below_example =
    resolve-Below plain cams (root_dir ∷ normal "front-door" ∷ clip) _ clip_resolves

resolve-climbs_example :
    resolve linked (single cam_dir) (root_dir ∷ parent_dir ∷ normal "secret" ∷ []) ≡ err traversal
resolve-climbs_example =
    resolve-climbs linked (single cam_dir) (root_dir ∷ parent_dir ∷ normal "secret" ∷ []) refl

two_names : ◌≢◌ {A = String} "front-door" "driveway"
two_names = ground (arith, eq_iff "front-door" "driveway")

driveway_unlisted :
    (cam : String) (rest : List String)
    → "driveway" ∷ "x" ∷ [] ≡ cam ∷ rest
    → lookup cam cams.roots ≡ none
unfolding lookup
driveway_unlisted cam rest e = ground (arith, two_names)

slow_path :
    ascend plain cam_dir (normal "clip.mp4" ∷ normal "front-door" ∷ normal "srv" ∷ root_dir ∷ []) []
    ≡ ok (cam_dir ++ (normal "clip.mp4" ∷ []))
unfolding ascend path_dec component_dec string_dec starts_with
slow_path = refl

-- The link `escape` stands beside the way to the clip, and `/..` is `/`.
abbrev beside : FilePath → Option FilePath
beside p = if p == root_dir ∷ parent_dir ∷ [] then some (root_dir ∷ []) else linked p

beside_links : NoLinks beside cam_dir ("day" ∷ "clip.mp4" ∷ [])
beside_links [] rest q h e = ground (arith, path_eq)
beside_links (t ∷ ts) rest q h e =
    ground (arith, path_eq, eq_iff "escape" "day", eq_iff "day" "escape")

beside_real : beside cam_dir ≡ some cam_dir
unfolding path_dec component_dec string_dec
beside_real = refl

resolve_plain_example :
    resolve beside (single cam_dir) clip ≡ ok (cam_dir ++ names ("day" ∷ "clip.mp4" ∷ []))
unfolding normalize
resolve_plain_example =
    resolve_plain beside cam_dir beside_real ("day" ∷ "clip.mp4" ∷ []) beside_links clip refl
