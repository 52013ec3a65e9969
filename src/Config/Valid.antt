-- ===== src/Config/Valid.antt =====
-- About `validate` of src/config.rs: what a configuration that passes satisfies.
use ftp_reolink.Base.{
  ◌≡◌, String, true, false, not, ◌||◌, Option, List, [], ◌∷◌, arith, map, All, string_eq, contains,
  ok, guard-eq-ok, >>-eq-ok, ltb, ◌≤◌, >>=-eq-ok,
}
use ftp_reolink.Base.Dict.{Dict}
use ftp_reolink.Config.{
  Config, CameraCfg, ViewerCfg, Scope, all, listed, login, check_cameras, check_members,
  check_groups, check_viewers, contains_key, check_items, check_scope, check_scopes, validate,
}

-- The logins of the cameras differ from one another and from those before.
abbrev pub NewLogins : List CameraCfg → List String → Type 0
NewLogins [] logins = Unit
NewLogins (cam ∷ rest) logins =
    (contains logins (login cam) ≡ false) × NewLogins rest (login cam ∷ logins)

-- So for the names of the cameras.
abbrev pub NewNames : List CameraCfg → List String → Type 0
NewNames [] names = Unit
NewNames (cam ∷ rest) names = (contains names cam.name ≡ false) × NewNames rest (cam.name ∷ names)

-- The names of the viewers differ from one another, from those before and from all logins.
abbrev pub NewViewers : List String → List ViewerCfg → List String → Type 0
NewViewers logins [] names = Unit
NewViewers logins (v ∷ rest) names =
    (contains names v.name ≡ false)
    × (contains logins v.name ≡ false)
    × NewViewers logins rest (v.name ∷ names)

abbrev pub camera_names : List CameraCfg → List String
camera_names = map (λ cam. cam.name)

abbrev pub camera_logins : List CameraCfg → List String
camera_logins = map login

-- Every member of every group is a camera.
abbrev pub MembersKnown : List String → Dict (List String) → Type 0
MembersKnown names [] = Unit
MembersKnown names ((g, members) ∷ groups) =
    All (λ m. contains names m ≡ true) members × MembersKnown names groups

-- Every item of every viewer's scope is a camera or a group.
abbrev pub ItemsKnown : List String → Dict (List String) → List String → Type 0
ItemsKnown names groups = All (λ it. (contains names it || contains_key it groups) ≡ true)

abbrev pub ScopeKnown : List String → Dict (List String) → Scope → Type 0
ScopeKnown names groups all = Unit
ScopeKnown names groups (listed items) = ItemsKnown names groups items

abbrev pub ScopesKnown : List String → Dict (List String) → List ViewerCfg → Type 0
ScopesKnown names groups [] = Unit
ScopesKnown names groups (v ∷ rest) =
    ScopeKnown names groups v.scope × ScopesKnown names groups rest

check_cameras_lem :
    (cams : List CameraCfg) (names logins N L : List String)
    → check_cameras cams names logins ≡ ok (N, L)
    → NewNames cams names
      × NewLogins cams logins
      × ((x : String) → contains N x ≡ (contains (camera_names cams) x || contains names x))
      × ((x : String) → contains L x ≡ (contains (camera_logins cams) x || contains logins x))
unfolding check_cameras
check_cameras_lem [] names logins N L h = (tt, tt, λ x. ground arith, λ x. ground arith)
check_cameras_lem (cam ∷ rest) names logins N L h =
    let (new, h1) = guard-eq-ok (not (contains names cam.name)) _ _ h in
    let (free, h2) = guard-eq-ok (not (contains logins (login cam))) _ _ h1 in
    let (ns, ls, hn, hl) = check_cameras_lem rest (cam.name ∷ names) (login cam ∷ logins) N L h2 in
    ((ground arith, ns), (ground arith, ls), λ x. ground (arith, hn x), λ x. ground (arith, hl x))

check_viewers_lem :
    (logins : List String) (vs : List ViewerCfg) (names : List String)
    → check_viewers logins vs names ≡ ok tt
    → NewViewers logins vs names
unfolding check_viewers
check_viewers_lem logins [] names h = tt
check_viewers_lem logins (v ∷ rest) names h =
    let (new, h1) = guard-eq-ok (not (contains names v.name)) _ _ h in
    let (free, h2) = guard-eq-ok (not (contains logins v.name)) _ _ h1 in
    (ground arith, ground arith, check_viewers_lem logins rest (v.name ∷ names) h2)

check_members_lem :
    (g : String) (names members : List String)
    → check_members g names members ≡ ok tt
    → All (λ m. contains names m ≡ true) members
unfolding check_members
check_members_lem g names [] h = tt
check_members_lem g names (m ∷ members) h =
    let (known, rest) = guard-eq-ok (contains names m) _ _ h in
    (known, check_members_lem g names members rest)

check_groups_lem :
    (names : List String) (groups : Dict (List String))
    → check_groups names groups ≡ ok tt
    → MembersKnown names groups
unfolding check_groups
check_groups_lem names [] h = tt
check_groups_lem names ((g, members) ∷ groups) h =
    let (first, rest) = >>-eq-ok (check_members g names members) _ h in
    (check_members_lem g names members first, check_groups_lem names groups rest)

check_items_lem :
    (v : String) (names : List String) (groups : Dict (List String)) (items : List String)
    → check_items v names groups items ≡ ok tt
    → ItemsKnown names groups items
unfolding check_items
check_items_lem v names groups [] h = tt
check_items_lem v names groups (it ∷ items) h =
    let (known, rest) = guard-eq-ok (contains names it || contains_key it groups) _ _ h in
    (known, check_items_lem v names groups items rest)

check_scope_lem :
    (v : String) (names : List String) (groups : Dict (List String)) (s : Scope)
    → check_scope v names groups s ≡ ok tt
    → ScopeKnown names groups s
check_scope_lem v names groups all h = tt
check_scope_lem v names groups (listed items) h = check_items_lem v names groups items h

check_scopes_lem :
    (names : List String) (groups : Dict (List String)) (vs : List ViewerCfg)
    → check_scopes names groups vs ≡ ok tt
    → ScopesKnown names groups vs
unfolding check_scopes
check_scopes_lem names groups [] h = tt
check_scopes_lem names groups (v ∷ rest) h =
    let (known, more) = >>-eq-ok (check_scope v.name names groups v.scope) _ h in
    (check_scope_lem v.name names groups v.scope known, check_scopes_lem names groups rest more)

-- What validation promises. `names` and `logins` are sets that hold the names and the logins of
-- the cameras and nothing else.
pub record IsValid (cfg : Config) : Type 0 where
  pub ports : cfg.server.passive_lo ≤ cfg.server.passive_hi
  pub names : List String
  pub logins : List String
  pub is_names : (x : String) → contains names x ≡ contains (camera_names cfg.camera) x
  pub is_logins : (x : String) → contains logins x ≡ contains (camera_logins cfg.camera) x
  pub distinct_names : NewNames cfg.camera []
  pub distinct_logins : NewLogins cfg.camera []
  pub distinct_viewers : NewViewers logins cfg.viewer []
  pub members : MembersKnown names cfg.group
  pub scopes : ScopesKnown names cfg.group cfg.viewer

-- A configuration that validation accepts has ordered passive ports, cameras whose names and
-- logins are pairwise distinct, viewers whose names differ from one another and from every camera
-- login, groups that hold cameras only, and viewer scopes that name cameras and groups only.
pub validate-IsValid :
    {Recipient : Type 0} (parse_recipient : String → Option Recipient) (cfg : Config)
    → validate parse_recipient cfg ≡ ok tt
    → IsValid cfg
unfolding validate
validate-IsValid parse_recipient cfg h =
    let (ports, h1) = guard-eq-ok (not (ltb cfg.server.passive_hi cfg.server.passive_lo)) _ _ h in
    let ((N, L), collected, h2) = >>=-eq-ok (check_cameras cfg.camera [] []) _ h1 in
    let (nn, nl, cn, cl) = check_cameras_lem cfg.camera [] [] N L collected in
    let (groups, h3) = >>-eq-ok (check_groups N cfg.group) _ h2 in
    let (viewers, h4) = >>-eq-ok (check_viewers L cfg.viewer []) _ h3 in
    let (scopes, h5) = >>-eq-ok (check_scopes N cfg.group cfg.viewer) _ h4 in
    record {
      ports = ground arith;
      names = N;
      logins = L;
      is_names = λ x. ground (arith, cn x);
      is_logins = λ x. ground (arith, cl x);
      distinct_names = nn;
      distinct_logins = nl;
      distinct_viewers = check_viewers_lem L cfg.viewer [] viewers;
      members = check_groups_lem N cfg.group groups;
      scopes = check_scopes_lem N cfg.group cfg.viewer scopes;
    }
