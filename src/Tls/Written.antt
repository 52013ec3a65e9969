-- ===== src/Tls/Written.antt =====
-- About `write_cert_files` of src/tls.rs: what it writes, when nobody else touches the disk and no call
-- fails.
use mathlib.Core.Path.{subst}
use mathlib.Core.List.{append_assoc, append-nil}
use ftp_reolink.Base.{
  ◌++◌, String, ℕ, ◌≤◌, ◌<◌, ◌≡◌, ◌≢◌, ◌⊎◌, inl, inr, refl, ap, sym, ◌∙◌, false, Option, some, none,
  List, [], ◌∷◌, suc, arith, ok, nat_eq,
}
use ftp_reolink.Base.Text.{as_bytes}
use ftp_reolink.Path.{FilePath, path_eq}
use ftp_reolink.Disk.{
  Disk, Node, file, dir, node_at, update, default_mode, open_effect, open_mode_effect, write_effect,
}
use ftp_reolink.Disk.Laws.{node_at-cons}
use ftp_reolink.Disk.Act.{call, bind_ok, pure_run}
use ftp_reolink.Disk.Writing.{cut_at, cut_at-append, write_all}
use ftp_reolink.Disk.Still.{still, call_run}
use ftp_reolink.Tls.{private_mode, write_file, write_private, write_cert_files}

-- The path is free, or names a file.
abbrev pub Writable : FilePath → Disk → Type 0
Writable p d =
    (node_at p d.names ≡ none) ⊎ ((i : ℕ) × (node_at p d.names ≡ some (file i)) × (i < d.next))

-- A file keeps its mode; a new one gets `m`.
abbrev pub mode_after : ℕ → Option Node → (ℕ → ℕ) → ℕ
mode_after m (some (file i)) modes = modes i
mode_after m (some dir) modes = m
mode_after m none modes = m

-- `d'` is `d` once `p` is inode `j`, which holds `content`.
record Opened (m : ℕ) (p : FilePath) (content : List ℕ) (d : Disk) (j : ℕ) (d' : Disk)
    : Type 0 where
  there : node_at p d'.names ≡ some (file j)
  others : (q : FilePath) → q ≢ p → node_at q d'.names ≡ node_at q d.names
  filled : d'.bytes j ≡ content
  bytes : (k : ℕ) → k ≢ j → d'.bytes k ≡ d.bytes k
  mode : d'.modes j ≡ mode_after m (node_at p d.names) d.modes
  modes : (k : ℕ) → k ≢ j → d'.modes k ≡ d.modes k
  origin : (node_at p d.names ≡ some (file j)) ⊎ (j ≡ d.next)
  allocated : j < d'.next
  grows : d.next ≤ d'.next

created :
    (m : ℕ) (p : FilePath) (d : Disk)
    → node_at p d.names ≡ none
    → Opened m p [] d d.next (record {
      names = (p, file d.next) ∷ d.names;
      bytes = update d.bytes d.next [];
      modes = update d.modes d.next m;
      next = suc d.next;
    })
created m p d e = record {
  there = ground (arith, node_at-cons p p (file d.next) d.names);
  others = λ q differs. ground (arith, node_at-cons q p (file d.next) d.names);
  filled = ground arith;
  bytes = λ k differs. ground arith;
  mode = rw e (ground arith);
  modes = λ k differs. ground arith;
  origin = inr refl;
  allocated = omega arith;
  grows = omega arith;
}

emptied :
    (m : ℕ) (p : FilePath) (d : Disk) (i : ℕ)
    → node_at p d.names ≡ some (file i)
    → i < d.next
    → Opened m p [] d i (record d { bytes = update d.bytes i [] })
emptied m p d i e below = record {
  there = e;
  others = λ q differs. refl;
  filled = ground arith;
  bytes = λ k differs. ground arith;
  mode = rw e refl;
  modes = λ k differs. refl;
  origin = inl e;
  allocated = below;
  grows = omega arith;
}

open_effect_lem :
    (p : FilePath) (d : Disk)
    → Writable p d
    → (j : ℕ) × (d' : Disk) × (open_effect false p d ≡ (ok j, d')) × Opened default_mode p [] d j d'
unfolding open_effect
open_effect_lem p d (inl e) = (_, _, rw (e, open_effect) refl, created default_mode p d e)
open_effect_lem p d (inr (i, e, below)) = (
  i,
  record d { bytes = update d.bytes i [] },
  rw (e, open_effect) refl,
  emptied default_mode p d i e below,
)

open_mode_effect_lem :
    (m : ℕ) (p : FilePath) (d : Disk)
    → Writable p d
    → (j : ℕ) × (d' : Disk) × (open_mode_effect m p d ≡ (ok j, d')) × Opened m p [] d j d'
unfolding open_mode_effect
open_mode_effect_lem m p d (inl e) = (_, _, rw (e, open_mode_effect) refl, created m p d e)
open_mode_effect_lem m p d (inr (i, e, below)) = (
  i,
  record d { bytes = update d.bytes i [] },
  rw (e, open_mode_effect) refl,
  emptied m p d i e below,
)

write_lem :
    (m : ℕ) (p : FilePath) (xs ys : List ℕ) (d : Disk) (j : ℕ) (d' : Disk)
    → Opened m p xs d j d'
    → Opened m p (xs ++ ys) d j (write_effect j ys d').1
unfolding write_effect
write_lem m p xs ys d j d' o = record {
  there = o.there;
  others = o.others;
  filled = ground (arith, o.filled);
  bytes = λ k differs. ground (arith, o.bytes k differs);
  mode = o.mode;
  modes = o.modes;
  origin = o.origin;
  allocated = o.allocated;
  grows = o.grows;
}

-- However the system cuts the writes.
write_all_lem :
    (m : ℕ) (p : FilePath) (xs ys cuts bytes : List ℕ) (d : Disk) (j : ℕ) (d' : Disk)
    → xs ++ ys ≡ bytes
    → Opened m p xs d j d'
    → (e : Disk) × (write_all j ys cuts (still d') ≡ (ok tt, still e)) × Opened m p bytes d j e
unfolding write_all write_effect
write_all_lem m p xs [] cuts bytes d j d' h o =
    (d', pure_run tt (still d'), subst (λ l. Opened m p l d j d') (sym (append-nil xs) ∙ h) o)
write_all_lem m p xs (b ∷ ys) [] bytes d j d' h o = (
  (write_effect j (b ∷ ys) d').1,
  call_run (write_effect j (b ∷ ys)) refl,
  subst (λ l. Opened m p l d j (write_effect j (b ∷ ys) d').1) h
      (write_lem m p xs (b ∷ ys) d j d' o),
)
write_all_lem m p xs (b ∷ ys) (n ∷ cuts) bytes d j d' h o =
    let cut = b ∷ (cut_at n ys).0 in
    let (e, run, last) =
      write_all_lem m p (xs ++ cut) (cut_at n ys).1 cuts bytes d j (write_effect j cut d').1
        (append_assoc xs cut (cut_at n ys).1
          ∙ (ap (λ (l : List ℕ). xs ++ (b ∷ l)) (cut_at-append n ys) ∙ h))
        (write_lem m p xs cut d j d' o) in
    (e, bind_ok (call (write_effect j cut)) _ (call_run (write_effect j cut) refl) ∙ run, last)

write_file_lem :
    (cuts : List ℕ) (p : FilePath) (c : List ℕ) (d : Disk)
    → Writable p d
    → (j : ℕ) × (d' : Disk) × (write_file cuts p c (still d) ≡ (ok tt, still d'))
      × Opened default_mode p c d j d'
unfolding write_file
write_file_lem cuts p c d h =
    let (j, d', e, o) = open_effect_lem p d h in
    let (d'', run, filled) = write_all_lem default_mode p [] c cuts c d j d' refl o in
    (
      j,
      d'',
      bind_ok (call (open_effect false p)) _ (call_run (open_effect false p) e) ∙ run,
      filled,
    )

write_private_lem :
    (cuts : List ℕ) (p : FilePath) (c : List ℕ) (d : Disk)
    → Writable p d
    → (j : ℕ) × (d' : Disk) × (write_private cuts p c (still d) ≡ (ok tt, still d'))
      × Opened private_mode p c d j d'
unfolding write_private
write_private_lem cuts p c d h =
    let (j, d', e, o) = open_mode_effect_lem private_mode p d h in
    let (d'', run, filled) = write_all_lem private_mode p [] c cuts c d j d' refl o in
    (
      j,
      d'',
      bind_ok (call (open_mode_effect private_mode p)) _
            (call_run (open_mode_effect private_mode p) e)
          ∙ run,
      filled,
    )

-- The path names a file with these bytes and this mode.
pub record Names (p : FilePath) (bytes : List ℕ) (mode : ℕ) (d : Disk) : Type 0 where
  pub inode : ℕ
  pub there : node_at p d.names ≡ some (file inode)
  pub content : d.bytes inode ≡ bytes
  pub mode_is : d.modes inode ≡ mode

some_file : {i j : ℕ} → ◌≡◌ {A = Option Node} (some (file i)) (some (file j)) → i ≡ j
some_file e = ground arith

module _ (cuts key_cuts : List ℕ) (cert_pem key_pem : String) (cert_path key_path : FilePath)
    (d : Disk) (differs : cert_path ≢ key_path)
    (apart : (i : ℕ)
      → node_at cert_path d.names ≡ some (file i)
      → node_at key_path d.names ≢ some (file i)) where
  module _ (c : List ℕ) (i : ℕ) (d₁ : Disk) (o : Opened default_mode cert_path c d i d₁) where
    key_same : node_at key_path d₁.names ≡ node_at key_path d.names
    key_same = o.others key_path (λ e. differs (sym e))

    not_key : (j : ℕ) → node_at key_path d.names ≡ some (file j) → j < d.next → i ≢ j
    not_key j e below q = elim o.origin [
      | inl a ↦ apart i a (e ∙ ap (λ (k : ℕ). some (file k)) (sym q))
      | inr a ↦ absurd (omega (arith, a, q, below))
    ]

    still-Writable : Writable key_path d → Writable key_path d₁
    still-Writable (inl e) = inl (key_same ∙ e)
    still-Writable (inr (j, e, below)) = inr (j, key_same ∙ e, omega (arith, o.grows))

    kept_mode :
        Writable key_path d
        → mode_after private_mode (node_at key_path d₁.names) d₁.modes
          ≡ mode_after private_mode (node_at key_path d.names) d.modes
    kept_mode (inl e) = rw (key_same, e) refl
    kept_mode (inr (j, e, below)) = rw (key_same, e) (o.modes j (λ q. not_key j e below (sym q)))

    distinct :
        (b : List ℕ) (j : ℕ) (d₂ : Disk)
        → Opened private_mode key_path b d₁ j d₂
        → Writable key_path d
        → i ≢ j
    distinct b j d₂ u k q = elim u.origin [
      | inr a ↦ absurd (omega (arith, a, q, o.allocated))
      | inl a ↦ elim k [
        | inl e ↦ absurd (cc (key_same, a, e))
        | inr (l, e, below) ↦ not_key l e below (q ∙ sym (some_file (sym e ∙ (sym key_same ∙ a))))
      ]
    ]

  -- When nobody else touches the disk, no call fails, and the two paths differ, are each free or those
  -- of files, and not of one file: both are written, however the system cuts the writes, to their own bytes. A new certificate may be read by
  -- all and a new key by its owner only; but a file that was there keeps its mode, that of the key too.
  pub write_cert_files_lem :
      Writable cert_path d
      → Writable key_path d
      → (d' : Disk) × (write_cert_files cuts key_cuts cert_pem key_pem cert_path key_path (still d)
          ≡ (ok tt, still d'))
        × Names cert_path
            (as_bytes cert_pem)
            (mode_after default_mode (node_at cert_path d.names) d.modes)
            d'
        × Names key_path
            (as_bytes key_pem)
            (mode_after private_mode (node_at key_path d.names) d.modes)
            d'
  unfolding write_cert_files
  write_cert_files_lem c k =
      let (i, d₁, first, o) = write_file_lem cuts cert_path (as_bytes cert_pem) d c in
      let (j, d₂, second, u) =
        write_private_lem key_cuts key_path (as_bytes key_pem) d₁
          (still-Writable (as_bytes cert_pem) i d₁ o k) in
      (
        d₂,
        bind_ok (write_file cuts cert_path (as_bytes cert_pem)) _ first ∙ second,
        record {
          inode = i;
          there = u.others cert_path differs ∙ o.there;
          content =
              u.bytes i (distinct (as_bytes cert_pem) i d₁ o (as_bytes key_pem) j d₂ u k)
              ∙ o.filled;
          mode_is =
              u.modes i (distinct (as_bytes cert_pem) i d₁ o (as_bytes key_pem) j d₂ u k) ∙ o.mode;
        },
        record {
          inode = j;
          there = u.there;
          content = u.filled;
          mode_is = u.mode ∙ kept_mode (as_bytes cert_pem) i d₁ o k;
        },
      )
