-- ===== src/Store/Gaps.antt =====
-- About `store_stream` of src/backend.rs, where a finished file bears a staging name.
use mathlib.Core.Path.{subst}
use ftp_reolink.Base.{
  sym, String, List, ℕ, ◌≡◌, ◌<◌, ap, ◌∙◌, false, none, some, [], Result, ok, err, length, arith,
}
use ftp_reolink.Path.{FilePath, path_eq, file_name}
use ftp_reolink.Append.{staging_path, classify_offset}
use ftp_reolink.Append.Laws.{classify_offset_iff, staging_path-ne}
use ftp_reolink.Disk.{Disk, file, describe, node_at, exists_effect, metadata_effect, remove_effect}
use ftp_reolink.Disk.Laws.{node_at-erase}
use ftp_reolink.Disk.Act.{World, call, attempt, ignore, ◌>>=◌, bind_ok, bind_err, pure_run}
use ftp_reolink.Store.{
  os, refuse_if, size_or_zero, finalized, StoreError, overlaps, Input, check_offset, store_stream,
}
use ftp_reolink.Store.Atomic.{joined, Ready}
use ftp_reolink.Store.Outcome.{store_stream_publishes}

abbrev pub quiet : Disk → World
quiet d = record { disk = d; turns = [] }

module _ (p : FilePath) (j start : ℕ) (input : Input) (d : Disk) (free : node_at p d.names ≡ none)
    (there : node_at (staging_path p) d.names ≡ some (file j))
    (below : start < length (d.bytes j)) where
  abbrev s : FilePath
  s = staging_path p

  looked : os (exists_effect p) (quiet d) ≡ (ok false, quiet d)
  unfolding ◌>>=◌ exists_effect
  looked = rw free

  measured :
      attempt {F = StoreError} (call (metadata_effect s)) (quiet d)
      ≡ (ok (ok (describe d.bytes (file j))), quiet d)
  unfolding ◌>>=◌ metadata_effect
  measured = rw (there, metadata_effect)

  refused :
      check_offset s (classify_offset start (length (d.bytes j))) (quiet d)
      ≡ (err overlaps, quiet (remove_effect s d).1)
  unfolding check_offset ◌>>=◌ ignore
  refused = rw ((classify_offset_iff start (length (d.bytes j))).1.1 below, check_offset)

  removed : node_at s (remove_effect s d).1.names ≡ none
  unfolding remove_effect
  removed = ground (arith, there, node_at-erase s s d.names)

  deletes_run : store_stream p start input (quiet d) ≡ (err overlaps, quiet (remove_effect s d).1)
  unfolding store_stream
  deletes_run =
      bind_ok (os (exists_effect p)) _ looked
      ∙ (bind_ok (refuse_if false finalized) _ (pure_run tt (quiet d))
          ∙ (bind_ok (attempt (call (metadata_effect s))) _ measured
              ∙ (bind_ok (size_or_zero (ok (describe d.bytes (file j)))) _
                    (pure_run (length (d.bytes j)) (quiet d))
                  ∙ bind_err (check_offset s (classify_offset start (length (d.bytes j)))) _
                      refused)))

-- Let nobody else touch the disk and no call fail. A client uploads a file whose own name is the
-- staging name of `p`, from offset 0, where nothing is in its way: that upload succeeds, and the file
-- is finished and holds what was sent. Let `p` still be free then. An upload of `p` that starts at any
-- offset below the size of that finished file refuses as an overlap, and the finished file is gone.
pub store_stream_deletes :
    (p : FilePath) (name : String) (start : ℕ) (first second : Input) (d : Disk)
    → (named : file_name (staging_path p) ≡ some name)
    → Ready ⊥
        (staging_path p)
        (staging_path (staging_path p))
        (staging_path-ne (staging_path p))
        []
        0
        first
        d
    → first.breaks ≡ false
    → node_at p (store_stream (staging_path p) 0 first (quiet d)).1.disk.names ≡ none
    → start < length (joined first.chunks)
    → let (r, w) = store_stream (staging_path p) 0 first (quiet d) in
      let (r', w') = store_stream p start second (quiet w.disk) in
      ((n : ℕ) × (r ≡ ok n))
      × ((j : ℕ) × (node_at (staging_path p) w.disk.names ≡ some (file j))
          × (w.disk.bytes j ≡ joined first.chunks))
      × (r' ≡ err overlaps)
      × (node_at (staging_path p) w'.disk.names ≡ none)
store_stream_deletes p name start first second d named ready whole free below =
    let (n, done, published) =
      store_stream_publishes (staging_path p) name [] first (quiet d) named tt ready whole in
    let e = (store_stream (staging_path p) 0 first (quiet d)).1.disk in
    let less = subst (λ (l : List ℕ). start < length l) (sym published.content) below in
    let run = deletes_run p published.inode start second e free published.there less in
    (
      (n, done),
      (published.inode, published.there, published.content),
      ap (λ (x : Result StoreError ℕ × World). x.0) run,
      ap (λ (x : Result StoreError ℕ × World). node_at (staging_path p) x.1.disk.names) run
          ∙ removed p published.inode start second e free published.there less,
    )
