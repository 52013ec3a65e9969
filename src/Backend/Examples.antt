-- ===== src/Backend/Examples.antt =====
-- Unit tests of src/backend.rs, and the theorems at a concrete disk and concrete users.
use mathlib.Core.Path.{subst}
use native.Mathlib.Decide.{ℕ_discrete}
use ftp_reolink.Base.{
  ℕ, ◌≡◌, refl, sym, ap, ◌∙◌, String, Bool, true, false, Option, none, some, List, [], ◌∷◌, All, ok,
  err, inl, inr, arith, string_dec,
}
use ftp_reolink.Base.Text.{ends_with, codes_equal, starts_with}
use ftp_reolink.Path.{
  FilePath, root_dir, normal, path_eq, path_dec, component_dec, file_name, push_text, join_name,
}
use ftp_reolink.Scope.{single, resolve, contained, normalize}
use ftp_reolink.Append.{staging_path, is_reolink_test_file}
use ftp_reolink.Account.{uploader, viewing}
use ftp_reolink.Auth.{ReoUser}
use ftp_reolink.Disk.{
  Disk, file, dir, node_at, metadata_effect, read_dir_effect, entry_names, child_name,
}
use ftp_reolink.Disk.Act.{Turn, at_turn, take_turn, ◌>>=◌}
use ftp_reolink.Disk.Keeping.{Kept}
use ftp_reolink.Store.{Input}
use ftp_reolink.Backend.{
  capability_allowed, permission_denied, Fileinfo, real, hidden, synthesized, user_view,
}
use ftp_reolink.Backend.Handlers.{ReoBackend, require, resolved, list, collect}
use ftp_reolink.Backend.Requests.{Request, perform}
use ftp_reolink.Backend.Capability.{perform-Forbidden, viewer_keeps}
use ftp_reolink.Backend.Listing.{list_hides}
use ftp_reolink.Path.{parent, drop_last}
use ftp_reolink.Disk.{
  exists_effect, create_dirs_effect, make_dirs, open_effect, write_effect, link_effect,
  remove_effect, erase,
}
use ftp_reolink.Disk.Act.{ignore}
use ftp_reolink.Store.{store_encrypted, age_suffix}
use ftp_reolink.Backend.Handlers.{put, put_named, put_resolved}
use mathlib.Core.Option
use ftp_reolink.Append.{classify_offset}
use ftp_reolink.Append.Laws.{staging_path-ne}
use ftp_reolink.Store.{store_stream, total_length}
use ftp_reolink.Store.Atomic.{Ready, joined}
use ftp_reolink.Backend.Handlers.{get}
use ftp_reolink.Backend.RoundTrip.{get-put}
use ftp_reolink.Scope.{ascend}
use ftp_reolink.Disk.Act.{World}
use ftp_reolink.Base.{length}
use ftp_reolink.Backend.Sealing.{put_resolved_avoids}
use ftp_reolink.Backend.Own.{Own, camera as uploader_at, put_keeps}
use ftp_reolink.Backend.Sample.{home, clip, archive, session, clip_solid, only_clip}

abbrev exists_there : Disk → FilePath → Option FilePath
exists_there d p = elim (node_at p d.names) [ none ↦ none | some n ↦ some p ]

abbrev plain_bytes : List String → List (List ℕ) → Bool → List (List ℕ) × Bool
plain_bytes keys chunks breaks = (chunks, breaks)

abbrev backend : ReoBackend String
backend = record { recipients = none }

abbrev camera : ReoUser
camera = record { login = "cam"; role = uploader home; require_tls = false }

abbrev viewer : ReoUser
viewer = record { login = "eve"; role = viewing (single home); require_tls = false }

abbrev upload : Input
upload = record { chunks = (5 ∷ []) ∷ []; breaks = false }

abbrev old_info : Fileinfo
old_info = record {
  path = "old.mp4";
  meta = real (record { len = 2; is_dir = false; is_file = true });
}

list_hides_staging_and_quarantine :
    (list exists_there plain_bytes camera (root_dir ∷ []) session).0 ≡ ok (old_info ∷ [])
unfolding list collect require capability_allowed synthesized user_view resolved resolve contained
    normalize single starts_with ftp_reolink.Path.starts_with take_turn at_turn read_dir_effect
    metadata_effect entry_names child_name node_at path_dec component_dec string_dec ℕ_discrete
    hidden ends_with ◌>>=◌
list_hides_staging_and_quarantine = refl

perform-Forbidden_example :
    perform exists_there plain_bytes backend viewer (Request.put upload clip 0) session
    ≡ (err permission_denied, session)
perform-Forbidden_example =
    perform-Forbidden exists_there plain_bytes backend viewer (Request.put upload clip 0) session tt

abbrev Anyone : Turn → Type 0
Anyone t = (d : Disk) → t.meanwhile d ≡ d

abbrev Unchanged : Disk → Type 0
Unchanged d = d ≡ archive

viewer_keeps_example :
    Unchanged (perform exists_there plain_bytes backend viewer (Request.get clip 1) session).1.disk
viewer_keeps_example =
    viewer_keeps exists_there plain_bytes backend Anyone Unchanged (λ t r d k. r d ∙ k) viewer
      (single home) (Request.get clip 1) refl session ((λ d. refl), tt) refl

camera_lists : synthesized camera.role (root_dir ∷ []) ≡ none
unfolding synthesized
camera_lists = refl

list_hides_example : All (λ info. hidden info.path ≡ false) (old_info ∷ [])
list_hides_example =
    list_hides exists_there plain_bytes camera (root_dir ∷ []) session (old_info ∷ []) camera_lists
      list_hides_staging_and_quarantine

-- The root directory, the home, and in it a link to the home itself.
abbrev looped : Disk
looped = record {
  names = (root_dir ∷ [], dir) ∷ (home, dir) ∷ [];
  bytes = λ i. [];
  modes = λ i. 438;
  next = 0;
}

abbrev follow_loop : Disk → FilePath → Option FilePath
follow_loop d p = some home

abbrev sealing : ReoBackend String
sealing = record { recipients = some [] }

-- An encrypted upload to the link is stored beside the home.
seals_beside_the_home :
    node_at
      (root_dir ∷ normal "srv.age" ∷ [])
      (put follow_loop plain_bytes sealing camera upload
        (root_dir ∷ normal "loop" ∷ [])
        0
        (record { disk = looped; turns = [] })).1.disk.names
    ≡ some (file 0)
unfolding put put_named put_resolved require capability_allowed user_view resolved resolve contained
    normalize single ftp_reolink.Path.starts_with is_reolink_test_file codes_equal starts_with
    file_name store_encrypted age_suffix staging_path push_text parent drop_last take_turn at_turn
    exists_effect create_dirs_effect make_dirs open_effect write_effect link_effect remove_effect
    erase ignore node_at path_dec component_dec string_dec ℕ_discrete ◌>>=◌
seals_beside_the_home = refl

-- The home of another camera.
abbrev gate : FilePath
gate = root_dir ∷ normal "gate" ∷ []

clip_not-Own : Own exists_there gate clip → ⊥
clip_not-Own (inl (place, inside, inl e)) = clip_solid (inl (place, e))
clip_not-Own (inl (place, inside, inr e)) = clip_solid (inl (age_suffix place, e))
clip_not-Own (inr (name, e)) = omega (arith, ap length e)

clip-Kept_by_gate : Kept (Own exists_there gate) clip 0 (1 ∷ 2 ∷ []) archive
unfolding node_at path_dec component_dec string_dec ℕ_discrete
clip-Kept_by_gate = record {
  there = refl;
  content = refl;
  allocated = omega arith;
  apart = λ q z e. clip_not-Own (subst (Own exists_there gate) (sym (only_clip q e)) z);
}

put_keeps_example :
    Kept
      (Own exists_there gate)
      clip
      0
      (1 ∷ 2 ∷ [])
      (put exists_there plain_bytes sealing
        (uploader_at "gate" gate false)
        upload
        (root_dir ∷ normal "old.mp4" ∷ [])
        0
        session).1.disk
put_keeps_example =
    put_keeps exists_there plain_bytes sealing gate clip 0 (1 ∷ 2 ∷ []) "gate" false upload
      (root_dir ∷ normal "old.mp4" ∷ []) 0 session clip_not-Own ((λ d k. k), tt) clip-Kept_by_gate

new_name : file_name (join_name home "new.mp4") ≡ some "new.mp4"
unfolding file_name
new_name = refl

new_absent : node_at (join_name home "new.mp4") archive.names ≡ none
unfolding node_at path_dec component_dec string_dec
new_absent = refl

put_resolved_avoids_example :
    node_at
      (join_name home "new.mp4")
      (put_resolved exists_there plain_bytes sealing upload 0
        (join_name home "new.mp4")
        session).1.disk.names
    ≡ none
put_resolved_avoids_example =
    put_resolved_avoids exists_there plain_bytes [] upload 0 (join_name home "new.mp4") "new.mp4"
      session new_name ((λ d k. k), tt) new_absent

abbrev sent_path : FilePath
sent_path = root_dir ∷ normal "new.mp4" ∷ []

abbrev sent : World
sent = (put exists_there plain_bytes backend camera upload sent_path 0 session).1

sent_resolves :
    resolve (exists_there session.disk) (user_view camera) sent_path ≡ ok (join_name home "new.mp4")
unfolding user_view resolve contained normalize single ftp_reolink.Path.starts_with parent drop_last
    node_at path_dec component_dec string_dec file_name ascend
sent_resolves = refl

sent_found :
    resolve (exists_there sent.disk) (user_view viewer) sent_path ≡ ok (join_name home "new.mp4")
unfolding put put_named put_resolved require capability_allowed user_view resolved resolve contained
    ascend normalize single ftp_reolink.Path.starts_with is_reolink_test_file codes_equal
    starts_with file_name store_stream classify_offset staging_path push_text parent drop_last
    take_turn at_turn exists_effect metadata_effect create_dirs_effect make_dirs open_effect
    write_effect link_effect remove_effect erase ignore node_at path_dec component_dec string_dec
    ℕ_discrete ◌>>=◌
sent_found = refl

sent_is_no_probe : is_reolink_test_file "new.mp4" ≡ false
unfolding is_reolink_test_file codes_equal starts_with ℕ_discrete
sent_is_no_probe = refl

home_made : (make_dirs archive.names [] home).1 ≡ true
unfolding make_dirs node_at path_dec component_dec string_dec
home_made = refl

sent_directory : parent (staging_path (join_name home "new.mp4")) ≡ some home
unfolding staging_path push_text parent drop_last
sent_directory = refl

sent_Ready :
    Ready ⊥
      (join_name home "new.mp4")
      (staging_path (join_name home "new.mp4"))
      (staging_path-ne (join_name home "new.mp4"))
      []
      0
      upload
      archive
unfolding staging_path push_text node_at path_dec component_dec string_dec ℕ_discrete
sent_Ready = record {
  free = refl;
  staged = inr (1, refl, refl);
  clear = λ q e.
      subst (λ (r : FilePath). (make_dirs archive.names [] r).1 ≡ true)
        (Option.some-injective home q (sym sent_directory ∙ e)) home_made;
}

sent_name : file_name sent_path ≡ some "new.mp4"
unfolding file_name
sent_name = refl

get-put_example :
    ((put exists_there plain_bytes backend camera upload sent_path 0 session).0
      ≡ ok (total_length upload.chunks))
    × ((i : ℕ) × ((get exists_there plain_bytes viewer sent_path 0 sent).0 ≡ ok (file i, 0))
        × ((get exists_there plain_bytes viewer sent_path 0 sent).1.disk.bytes i
            ≡ joined upload.chunks))
get-put_example =
    get-put exists_there plain_bytes backend refl camera viewer home (single home) sent_path
      (join_name home "new.mp4") sent_path "new.mp4" "new.mp4" [] upload 0 session refl refl
      sent_name sent_is_no_probe sent_resolves new_name sent_Ready
      ((λ d. refl, λ e. ground arith), tt) refl sent_found
