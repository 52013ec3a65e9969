-- ===== src/Main/RoundTrip.antt =====
-- About `store_encrypted` of src/backend.rs and `decrypt` of src/main.rs, one after the other.
use mathlib.Core.Path.{subst}
use Prim.Native.String.{count}
use text.Mathlib.TextLemmas.{nil-append, cons-append, length-cons, length-append}
use ftp_reolink.Base.{
  ℕ, ◌≡◌, ◌≢◌, refl, sym, ap, ◌∙◌, String, ◌<>◌, Bool, false, Option, none, some, List, Result, ok,
  All, arith, string_dec, string_eq,
}
use ftp_reolink.Base.Text.{strip_suffix}
use ftp_reolink.Path.{FilePath, file_name}
use ftp_reolink.Path.Laws.{file_name-pushed}
use ftp_reolink.Disk.{Disk, file, node_at}
use ftp_reolink.Disk.Act.{World}
use ftp_reolink.Disk.Still.{still}
use ftp_reolink.Store.{Input, store_encrypted, age_suffix, total_length}
use ftp_reolink.Store.Atomic.{joined}
use ftp_reolink.Store.Sealed.{Vacant, store_encrypted_publishes}
use ftp_reolink.Main.{MainError, stem_of, out_path, decrypt_file}
use ftp_reolink.Main.Decrypted.{Filled, AllFilled, Reads, Clear, Ended, decrypt_file_lem}

longer : (c : _) (s : String) → String.◌∷◌ c (s <> ".age") ≢ ".age"
longer c s e = omega (arith, ap count e, length-cons c (s <> ".age"), length-append s ".age")

strip_suffix-append : (s : String) → strip_suffix (s <> ".age") ".age" ≡ some s
unfolding strip_suffix
strip_suffix-append String.[] = (unfold string_dec in refl)
strip_suffix-append (String.◌∷◌ c s) = ground (
  arith,
  cons-append c s ".age",
  longer c s,
  strip_suffix-append s,
  cons-append c "" s,
  nil-append s,
)

file_name-age_suffix :
    (p : FilePath) (name : String)
    → file_name p ≡ some name
    → file_name (age_suffix p) ≡ some (name <> ".age")
unfolding age_suffix
file_name-age_suffix p name e = file_name-pushed p ".age" name e

stem_of-age_suffix :
    (p : FilePath) (name : String) → file_name p ≡ some name → stem_of (age_suffix p) ≡ some name
stem_of-age_suffix p name e = rw (stem_of, file_name-age_suffix p name e) (strip_suffix-append name)

module _ {Identity : Type 0} (open_age : Identity → List ℕ → Reads) (id : Identity)
    (encrypt : List (List ℕ) → Bool → List (List ℕ) × Bool) (input : Input)
    (reads : List (List ℕ)) where
  -- What age writes for the upload, it reads back for the identity: the plain bytes, in reads that
  -- are not empty.
  pub record ReadsBack : Type 0 where
    pub whole : (encrypt input.chunks input.breaks).1 ≡ false
    pub opens : open_age id (joined (encrypt input.chunks input.breaks).0) ≡ some (reads, false)
    pub filled : All Filled reads
    pub same : joined reads ≡ joined input.chunks

  -- The plain bytes of the upload are at the path.
  abbrev pub Restored : FilePath → Result MainError (Unit {0}) × World → Type 0
  Restored out (r, w) =
      (r ≡ ok tt)
      × ((j : ℕ) × (node_at out w.disk.names ≡ some (file j))
          × (w.disk.bytes j ≡ joined input.chunks))

  -- Let `p` be a path that ends in `name`, whose name with `.age` is free, as is its staging name, and
  -- no file is in the way of its directories. When nobody else touches the disk, no call fails and
  -- age reads back for the identity what it writes for the upload, then an encrypted store to `p` with
  -- `.age` succeeds, and if the output `name` of `decrypt` is free after it, the decryption of the
  -- stored file succeeds too, and the output holds exactly the bytes of the upload.
  pub decrypt_file-store_encrypted :
      (p : FilePath) (name : String) (output : Option FilePath) (d : Disk)
      → file_name p ≡ some name
      → Vacant (age_suffix p) d
      → ReadsBack
      → node_at
          (out_path output (age_suffix p) name)
          (store_encrypted encrypt (age_suffix p) input (still d)).1.disk.names
        ≡ none
      → ((store_encrypted encrypt (age_suffix p) input (still d)).0
          ≡ ok (total_length input.chunks))
        × Restored (out_path output (age_suffix p) name) (
            decrypt_file open_age id output
              (age_suffix p)
              (store_encrypted encrypt (age_suffix p) input (still d)).1)
  decrypt_file-store_encrypted p name output d named v back unused =
      let sealed = age_suffix p in
      let out = out_path output sealed name in
      let (d', run, holds) =
        store_encrypted_publishes sealed (name <> ".age") (file_name-age_suffix p name named)
          encrypt input d v back.whole in
      let reading : open_age id (d'.bytes holds.inode) ≡ some (reads, false) =
        ap (open_age id) holds.content ∙ back.opens in
      (
        ap (λ (x : Result _ ℕ × World). x.0) run,
        subst
            (λ (w : World).
              node_at out w.disk.names ≡ none
              → Restored out (decrypt_file open_age id output sealed w))
            (sym (ap (λ (x : Result _ ℕ × World). x.1) run))
            (λ free.
              let clear : Clear out holds.inode d' = record {
                no_dir = λ e. ground (arith, free, e);
                apart = λ e. ground (arith, free, e);
                allocated = holds.allocated;
              } in
              let ended =
                decrypt_file_lem open_age id output sealed name holds.inode d'
                  (stem_of-age_suffix p name named) holds.there clear
                  (subst AllFilled (sym reading) back.filled) in
              let (answer, (j, there, content)) =
                subst
                  (λ o.
                    Ended sealed out o (decrypt_file open_age id output sealed (still d')).0
                      (decrypt_file open_age id output sealed (still d')).1.disk)
                  reading ended in
              (answer, (j, there, content ∙ back.same)))
            unused,
      )
