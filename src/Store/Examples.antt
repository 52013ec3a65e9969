-- ===== src/Store/Examples.antt =====
-- The theorems at concrete disks, paths and uploads.
use mathlib.Core.Path.{subst}
use native.Mathlib.Decide.{ℕ_discrete}
use ftp_reolink.Base.{
  inl, ℕ, ◌≡◌, refl, sym, ◌∙◌, Bool, true, false, none, some, List, [], ◌∷◌, All, ok, err, arith,
  string_dec, inr,
}
use ftp_reolink.Path.{
  FilePath, root_dir, normal, path_dec, component_dec, path_eq, push_text, parent, file_name,
}
use ftp_reolink.Append.{staging_path, classify_offset}
use ftp_reolink.Append.Laws.{staging_path-ne}
use ftp_reolink.Disk.{
  Disk, file, dir, node_at, erase, make_dirs, update, exists_effect, metadata_effect, remove_effect,
  create_dirs_effect, open_effect, write_effect, link_effect,
}
use ftp_reolink.Disk.Act.{Turn, World, at_turn, take_turn, ignore, ◌>>=◌}
use ftp_reolink.Store.{Input, overlaps, finalized, store_stream, store_encrypted}
use ftp_reolink.Store.Encrypted.{Open, Ended, store_encrypted_atomic}
use ftp_reolink.Store.Atomic.{joined, Alone, Ready}
use ftp_reolink.Store.Outcome.{Outcome, named_length, store_stream_atomic}
use ftp_reolink.Store.Gaps.{quiet, store_stream_deletes}

abbrev srv : FilePath
srv = root_dir ∷ normal "srv" ∷ []

abbrev old_clip : FilePath
old_clip = root_dir ∷ normal "srv" ∷ normal "old.mp4" ∷ []

abbrev clip : FilePath
clip = root_dir ∷ normal "srv" ∷ normal "clip.mp4" ∷ []

abbrev clip_partial : FilePath
clip_partial = root_dir ∷ normal "srv" ∷ normal "clip.mp4.reoftpd-partial" ∷ []

-- `old_clip` is finished, and two bytes of `clip` are staged.
abbrev halfway : Disk
halfway = record {
  names = (srv, dir) ∷ (root_dir ∷ [], dir) ∷ (old_clip, file 0) ∷ (clip_partial, file 1) ∷ [];
  bytes = update (update (λ i. []) 0 (1 ∷ 2 ∷ [])) 1 (3 ∷ 4 ∷ []);
  modes = λ i. 438;
  next = 2;
}

abbrev upload : Input
upload = record { chunks = (5 ∷ 6 ∷ []) ∷ (7 ∷ []) ∷ []; breaks = false }

abbrev calm : Turn
calm = record { meanwhile = λ d. d; fault = false }

-- The fifth call fails.
abbrev shaky : World
shaky = record {
  disk = halfway;
  turns = calm ∷ calm ∷ calm ∷ calm ∷ record { meanwhile = λ d. d; fault = true } ∷ [];
}

abbrev steady : World
steady = record { disk = halfway; turns = calm ∷ calm ∷ [] }

clip_staging : staging_path clip ≡ clip_partial
unfolding staging_path push_text
clip_staging = refl

appends_and_publishes : (store_stream clip 2 upload steady).0 ≡ ok 3
unfolding store_stream take_turn at_turn exists_effect metadata_effect remove_effect
    create_dirs_effect open_effect write_effect link_effect node_at erase make_dirs push_text
    path_dec component_dec string_dec ℕ_discrete ignore classify_offset ◌>>=◌ parent
appends_and_publishes = refl

refuses_an_existing_file : (store_stream old_clip 0 upload steady).0 ≡ err finalized
unfolding store_stream take_turn at_turn exists_effect node_at path_dec component_dec string_dec
    ◌>>=◌
refuses_an_existing_file = refl

refuses_an_overlap : (store_stream clip 1 upload steady).0 ≡ err overlaps
unfolding store_stream take_turn at_turn exists_effect metadata_effect remove_effect node_at
    push_text path_dec component_dec string_dec ℕ_discrete ignore classify_offset ◌>>=◌
refuses_an_overlap = refl

-- An encryption that puts a header before the chunks.
abbrev with_header : List (List ℕ) → Bool → List (List ℕ) × Bool
with_header chunks breaks = ((9 ∷ []) ∷ chunks, breaks)

some_injective : {p q : FilePath} → some p ≡ some q → p ≡ q
some_injective e = ground arith

srv_made : (make_dirs halfway.names [] srv).1 ≡ true
unfolding make_dirs node_at path_dec component_dec string_dec
srv_made = refl

clip_directory : parent (staging_path clip) ≡ some srv
unfolding staging_path push_text parent
clip_directory = refl

halfway-Ready :
    (MayFail : Type 0)
    → Ready MayFail clip (staging_path clip) (staging_path-ne clip) (3 ∷ 4 ∷ []) 2 upload halfway
unfolding staging_path push_text node_at path_dec component_dec string_dec ℕ_discrete
halfway-Ready MayFail = record {
  free = refl;
  staged = inr (1, refl, refl);
  clear = λ q e.
      subst (λ (r : FilePath). (make_dirs halfway.names [] r).1 ≡ true)
        (some_injective (sym clip_directory ∙ e)) srv_made;
}

clip_name : file_name clip ≡ some "clip.mp4"
unfolding file_name
clip_name = refl

shaky-Alone : All (Alone Unit) shaky.turns
shaky-Alone = (
  (λ d. refl, λ e. tt),
  (
    (λ d. refl, λ e. tt),
    ((λ d. refl, λ e. tt), ((λ d. refl, λ e. tt), ((λ d. refl, λ e. tt), tt))),
  ),
)

store_stream_atomic_example :
    Outcome Unit clip
      (3 ∷ 4 ∷ [])
      2
      upload
      (named_length clip {name = "clip.mp4"} clip_name)
      (store_stream clip 2 upload shaky).0
      (store_stream clip 2 upload shaky).1.disk
store_stream_atomic_example =
    store_stream_atomic clip "clip.mp4" (3 ∷ 4 ∷ []) 2 upload shaky clip_name shaky-Alone
      (halfway-Ready Unit)

partial_there : node_at (staging_path clip) halfway.names ≡ some (file 1)
unfolding staging_path push_text node_at path_dec component_dec string_dec
partial_there = refl

clip_free : node_at clip halfway.names ≡ none
unfolding node_at path_dec component_dec string_dec
clip_free = refl

-- Nothing of `clip` is there.
abbrev before_clip : Disk
before_clip = record {
  names = (srv, dir) ∷ (root_dir ∷ [], dir) ∷ (old_clip, file 0) ∷ [];
  bytes = update (λ i. []) 0 (1 ∷ 2 ∷ []);
  modes = λ i. 438;
  next = 1;
}

partial_name : file_name (staging_path clip) ≡ some "clip.mp4.reoftpd-partial"
unfolding file_name staging_path push_text
partial_name = refl

staging_directory : parent (staging_path (staging_path clip)) ≡ some srv
unfolding staging_path push_text parent
staging_directory = refl

partial-Ready :
    Ready ⊥
      (staging_path clip)
      (staging_path (staging_path clip))
      (staging_path-ne (staging_path clip))
      []
      0
      upload
      before_clip
unfolding staging_path push_text node_at make_dirs path_dec component_dec string_dec ℕ_discrete
partial-Ready = record {
  free = refl;
  staged = inl (refl, refl);
  clear = λ q e.
      subst (λ (r : FilePath). (make_dirs before_clip.names [] r).1 ≡ true)
        (some_injective (sym staging_directory ∙ e)) refl;
}

clip_still_free :
    node_at clip (store_stream (staging_path clip) 0 upload (quiet before_clip)).1.disk.names ≡ none
unfolding store_stream take_turn at_turn exists_effect metadata_effect remove_effect
    create_dirs_effect open_effect write_effect link_effect node_at erase make_dirs push_text
    path_dec component_dec string_dec ℕ_discrete ignore classify_offset ◌>>=◌ parent staging_path
clip_still_free = refl

store_stream_deletes_example :
    let (r, w) = store_stream (staging_path clip) 0 upload (quiet before_clip) in
    let (r', w') = store_stream clip 1 upload (quiet w.disk) in
    ((n : ℕ) × (r ≡ ok n))
    × ((j : ℕ) × (node_at (staging_path clip) w.disk.names ≡ some (file j))
        × (w.disk.bytes j ≡ joined upload.chunks))
    × (r' ≡ err overlaps)
    × (node_at (staging_path clip) w'.disk.names ≡ none)
store_stream_deletes_example =
    store_stream_deletes clip "clip.mp4.reoftpd-partial" 1 upload upload before_clip partial_name
      partial-Ready refl clip_still_free (omega arith)

halfway-Open :
    Open Unit clip (named_length clip {name = "clip.mp4"} clip_name) with_header upload halfway
halfway-Open = record {
  free = clip_free;
  staged = inr (1, partial_there);
  clear = λ q e. (halfway-Ready Unit).clear q e;
}

encrypts_over_stale_bytes : (store_encrypted with_header clip upload steady).0 ≡ ok 3
unfolding store_encrypted take_turn at_turn exists_effect remove_effect create_dirs_effect
    open_effect write_effect link_effect node_at erase make_dirs push_text path_dec component_dec
    string_dec ℕ_discrete ignore ◌>>=◌ parent
encrypts_over_stale_bytes = refl

store_encrypted_atomic_example :
    Ended clip
      (named_length clip {name = "clip.mp4"} clip_name)
      with_header
      upload
      (store_encrypted with_header clip upload shaky).0
      (store_encrypted with_header clip upload shaky).1.disk
store_encrypted_atomic_example =
    store_encrypted_atomic with_header clip "clip.mp4" upload shaky clip_name shaky-Alone
      halfway-Open
