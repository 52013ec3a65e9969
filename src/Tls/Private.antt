-- ===== src/Tls/Private.antt =====
-- About `write_cert_files` of src/tls.rs: who may read the key.
use ftp_reolink.Base.{
  String, ℕ, ◌<◌, ◌≡◌, ◌≢◌, ◌⊎◌, inl, inr, refl, false, Option, some, none, List, [], ◌∷◌, suc, All,
  arith, nat_eq,
}
use ftp_reolink.Base.Text.{as_bytes}
use ftp_reolink.Path.{FilePath, path_eq}
use ftp_reolink.Disk.{
  Disk, Node, update, default_mode, file, dir, node_at, open_effect, open_mode_effect, write_effect,
  Effect, IoError,
}
use ftp_reolink.Disk.Laws.{node_at-cons}
use ftp_reolink.Disk.Act.{World, Turn, Act, call}
use ftp_reolink.Disk.Writing.{cut_at, write_all}
use ftp_reolink.Disk.Triple.{Ensures, Ensures-pure, Ensures-call, Ensures-bind}
use ftp_reolink.Tls.{private_mode, write_file, write_private, write_cert_files}

-- The path is free, or names a file that only its owner may read.
abbrev pub Private : FilePath → Disk → Type 0
Private p d =
    (node_at p d.names ≡ none)
    ⊎ ((j : ℕ) × (node_at p d.names ≡ some (file j)) × (d.modes j ≡ private_mode) × (j < d.next))

module _ (p : FilePath) where
  -- The others leave it so.
  abbrev pub Discreet : Turn → Type 0
  Discreet t = (d : Disk) → Private p d → Private p (t.meanwhile d)

  abbrev Guards : {A : Type 0} → Act IoError A → Type 0
  Guards m = Ensures Discreet (Private p) m (λ r d. Private p d)

  guard_call :
      {A : Type 0} (e : Effect A) → ((d : Disk) → Private p d → Private p (e d).1) → Guards (call e)
  guard_call e h = Ensures-call (λ r d. Private p d) e (λ t r. r) h (λ t r q d k. k)

  written : (j : ℕ) (c : List ℕ) (d : Disk) → Private p d → Private p (write_effect j c d).1
  unfolding write_effect
  written j c d k = k

  opened_private : (d : Disk) → Private p d → Private p (open_mode_effect private_mode p d).1
  unfolding open_mode_effect
  opened_private d (inl e) =
      rw (e, open_mode_effect)
        (inr (
          d.next,
          ground (arith, node_at-cons p p (file d.next) d.names),
          ground arith,
          omega arith,
        ))
  opened_private d (inr (j, e, m, below)) = rw (e, open_mode_effect) (inr (j, e, m, below))

  opened_other :
      (q : FilePath) → q ≢ p → (d : Disk) → Private p d → Private p (open_effect false q d).1
  unfolding open_effect
  opened_other q differs d k = go (node_at q d.names) refl
    where
      go : (o : Option Node) → node_at q d.names ≡ o → Private p (open_effect false q d).1
      go none e = rw (e, open_effect) (made k)
        where
          made :
              Private p d
              → Private p (record {
                names = (q, file d.next) ∷ d.names;
                bytes = update d.bytes d.next [];
                modes = update d.modes d.next default_mode;
                next = suc d.next;
              })
          made (inl free) = inl (ground (arith, node_at-cons p q (file d.next) d.names, differs))
          made (inr (j, there, m, below)) = inr (
            j,
            ground (arith, node_at-cons p q (file d.next) d.names, differs),
            ground arith,
            omega arith,
          )
      go (some (file i)) e = rw (e, open_effect) k
      go (some dir) e = rw (e, open_effect) k

  write_all-Guards : (j : ℕ) (bytes cuts : List ℕ) → Guards (write_all j bytes cuts)
  unfolding write_all
  write_all-Guards j [] cuts = Ensures-pure tt (λ d k. k)
  write_all-Guards j (b ∷ bytes) [] =
      guard_call (write_effect j (b ∷ bytes)) (written j (b ∷ bytes))
  write_all-Guards j (b ∷ bytes) (n ∷ cuts) =
      Ensures-bind (call (write_effect j (b ∷ (cut_at n bytes).0))) _
        (guard_call (write_effect j (b ∷ (cut_at n bytes).0)) (written j (b ∷ (cut_at n bytes).0)))
        (λ u. write_all-Guards j (cut_at n bytes).1 cuts) (λ e d k. k)

  write_private-Guards : (cuts bytes : List ℕ) → Guards (write_private cuts p bytes)
  unfolding write_private
  write_private-Guards cuts bytes =
      Ensures-bind _ _ (guard_call (open_mode_effect private_mode p) opened_private)
        (λ j. write_all-Guards j bytes cuts) (λ e d k. k)

  write_file-Guards :
      (cuts : List ℕ) (q : FilePath) (bytes : List ℕ) → q ≢ p → Guards (write_file cuts q bytes)
  unfolding write_file
  write_file-Guards cuts q bytes differs =
      Ensures-bind _ _ (guard_call (open_effect false q) (opened_other q differs))
        (λ j. write_all-Guards j bytes cuts) (λ e d k. k)

-- Where the path of the key is free before, or names a file that only its owner may read, and is not
-- that of the certificate, it is so afterwards, whatever calls fail and however the system cuts the
-- writes, provided the other processes leave it so.
pub write_cert_files-Private :
    (cuts key_cuts : List ℕ) (cert_pem key_pem : String) (cert_path key_path : FilePath) (w : World)
    → cert_path ≢ key_path
    → All (Discreet key_path) w.turns
    → Private key_path w.disk
    → Private key_path (write_cert_files cuts key_cuts cert_pem key_pem cert_path key_path w).1.disk
unfolding write_cert_files
write_cert_files-Private cuts key_cuts cert_pem key_pem cert_path key_path w differs r k =
    ((Ensures-bind _ _ (write_file-Guards key_path cuts cert_path (as_bytes cert_pem) differs)
        (λ u. write_private-Guards key_path key_cuts (as_bytes key_pem)) (λ e d k. k)).at
      w r k).1
