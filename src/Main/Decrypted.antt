-- ===== src/Main/Decrypted.antt =====
-- About `decrypt` of src/main.rs: what it writes, when nobody else touches the disk and no call fails.
use mathlib.Core.Path.{subst}
use native.Mathlib.Decide.{ℕ_discrete}
use ftp_reolink.Base.{
  ℕ, suc, ◌+◌, ◌<◌, ◌≡◌, ◌≢◌, refl, sym, ap, ◌∙◌, String, Bool, true, false, Option, none, some,
  List, [], ◌∷◌, ◌++◌, Result, ok, err, All, length, length-append, arith, Option-cases, inl, inr,
  nat_eq,
}
use ftp_reolink.Path.{FilePath, path_eq}
use ftp_reolink.Disk.{
  file, dir, Disk, node_at, erase, update, read_open_effect, read_effect, write_effect, open_effect,
  remove_effect,
}
use ftp_reolink.Disk.Laws.{node_at-erase, node_at-cons}
use ftp_reolink.Disk.Act.{call, pure, raise, wrap_err, attempt, ignore, bind_ok}
use ftp_reolink.Disk.Still.{
  still, call_run, attempt_run, ignore_run, wrap_run, Wrote, Wrote-nil, Wrote-write,
}
use ftp_reolink.Store.Atomic.{joined}
use ftp_reolink.Crypto as Crypto
use ftp_reolink.Crypto.{
  CryptoError, undecryptable, unreadable, copy_plain, copy_opened, decrypt_stream,
}
use ftp_reolink.Main.{
  MainError, io, sys, lift_some, not_age, undecrypted, stem_of, out_path, settled, decrypt_to,
  decrypt_file,
}

-- No read of the plain text is empty before its end.
abbrev pub Filled : List ℕ → Type 0
Filled [] = ⊥
Filled (b ∷ chunk) = Unit

abbrev pub count_or : Bool → ℕ → Result CryptoError ℕ
count_or true n = err undecryptable
count_or false n = ok n

copy_plain_lem :
    (j : ℕ) (reads : List (List ℕ)) (breaks : Bool) (n : ℕ) (d : Disk)
    → All Filled reads
    → (d' : Disk) × Wrote d j (joined reads) d'
      × (copy_plain j reads breaks n (still d)
          ≡ (count_or breaks (n + length (joined reads)), still d'))
unfolding copy_plain raise pure write_effect
copy_plain_lem j [] true n d h = (d, Wrote-nil d j, refl)
copy_plain_lem j [] false n d h = (d, Wrote-nil d j, ap (λ k. (ok k, still d)) (omega arith))
copy_plain_lem j ([] ∷ reads) breaks n d h = absurd h.0
copy_plain_lem j ((b ∷ chunk) ∷ reads) breaks n d (_, h) =
    let written : Disk = record d { bytes = update d.bytes j (d.bytes j ++ (b ∷ chunk)) } in
    let (d', w, e) = copy_plain_lem j reads breaks (n + length (b ∷ chunk)) written h in
    (
      d',
      Wrote-write d j (b ∷ chunk) (joined reads) d' w,
      bind_ok (wrap_err Crypto.io (call (write_effect j (b ∷ chunk)))) _
            (wrap_run _ Crypto.io (call_run (write_effect j (b ∷ chunk)) refl))
          ∙ (e
              ∙ ap (λ k. (count_or breaks k, still d'))
                  (omega (arith, length-append (b ∷ chunk) (joined reads)))),
    )

-- The output is not a directory and not the file at inode `i`.
pub record Clear (out : FilePath) (i : ℕ) (d : Disk) : Type 0 where
  pub no_dir : node_at out d.names ≢ some dir
  pub apart : node_at out d.names ≢ some (file i)
  pub allocated : i < d.next

-- The output is open at inode `j`, empty, and the input is as it was.
record Opened (out : FilePath) (i j : ℕ) (d d' : Disk) : Type 0 where
  there : node_at out d'.names ≡ some (file j)
  empty : d'.bytes j ≡ []
  input : d'.bytes i ≡ d.bytes i

opens :
    (out : FilePath) (i : ℕ) (d : Disk)
    → Clear out i d
    → (j : ℕ) × (d' : Disk) × (open_effect false out d ≡ (ok j, d')) × Opened out i j d d'
unfolding open_effect ℕ_discrete
opens out i d h = elim (Option-cases (node_at out d.names)) [
  | inl e ↦ (
    d.next,
    record {
      names = (out, file d.next) ∷ d.names;
      bytes = update d.bytes d.next [];
      modes = update d.modes d.next 438;
      next = suc d.next;
    },
    rw (e, open_effect) refl,
    record {
      there = ground (arith, node_at-cons out out (file d.next) d.names);
      empty = ground arith;
      input = ground (arith, h.allocated);
    },
  )
  | inr (file j, e) ↦ (
    j,
    record d { bytes = update d.bytes j [] },
    rw (e, open_effect) refl,
    record { there = e; empty = ground arith; input = ground (arith, h.apart) },
  )
  | inr (dir, e) ↦ absurd (h.no_dir e)
]

-- What reading the plain text gives: `none` where it cannot begin, and whether it breaks off.
abbrev pub Reads : Type 0
Reads = Option (List (List ℕ) × Bool)

abbrev pub AllFilled : Reads → Type 0
AllFilled none = Unit
AllFilled (some (reads, breaks)) = All Filled reads

-- All of the plain text came.
abbrev Copied : Reads → ℕ → Result CryptoError ℕ → Disk → Type 0
Copied none j r d' = r ≡ err undecryptable
Copied (some (reads, true)) j r d' = r ≡ err undecryptable
Copied (some (reads, false)) j r d' = (n : ℕ) × (r ≡ ok n) × (d'.bytes j ≡ joined reads)

-- The output holds the plain text, or the command fails and the output is not there.
abbrev pub Ended : FilePath → FilePath → Reads → Result MainError (Unit {0}) → Disk → Type 0
Ended input out none r d' =
    (r ≡ err (undecrypted input undecryptable)) × (node_at out d'.names ≡ none)
Ended input out (some (reads, true)) r d' =
    (r ≡ err (undecrypted input undecryptable)) × (node_at out d'.names ≡ none)
Ended input out (some (reads, false)) r d' =
    (r ≡ ok tt) × ((j : ℕ) × (node_at out d'.names ≡ some (file j)) × (d'.bytes j ≡ joined reads))

copied_lem :
    (o : Reads) (j : ℕ) (d : Disk)
    → AllFilled o
    → d.bytes j ≡ []
    → (r : Result CryptoError ℕ) × (d' : Disk) × (copy_opened j o (still d) ≡ (r, still d'))
      × (d'.names ≡ d.names)
      × Copied o j r d'
unfolding raise
copied_lem none j d h e = (err undecryptable, d, refl, refl, refl)
copied_lem (some (reads, true)) j d h e =
    let (d', w, run) = copy_plain_lem j reads true 0 d h in
    (err undecryptable, d', run, w.names, refl)
copied_lem (some (reads, false)) j d h e =
    let (d', w, run) = copy_plain_lem j reads false 0 d h in
    (
      ok (0 + length (joined reads)),
      d',
      run,
      w.names,
      (0 + length (joined reads), refl, w.content ∙ ap (λ bytes. bytes ++ joined reads) e),
    )

removed :
    (out : FilePath) (j : ℕ) (d : Disk)
    → node_at out d.names ≡ some (file j)
    → remove_effect out d ≡ (ok tt, record d { names = erase out d.names })
unfolding remove_effect
removed out j d e = rw (e, remove_effect) refl

fails :
    (input out : FilePath) (j : ℕ) (d : Disk)
    → node_at out d.names ≡ some (file j)
    → (d' : Disk) × (settled input out (err undecryptable) (still d)
        ≡ (err (undecrypted input undecryptable), still d'))
      × (node_at out d'.names ≡ none)
unfolding raise
fails input out j d e = (
  record d { names = erase out d.names },
  bind_ok (ignore (call (remove_effect out))) _
      (ignore_run (call (remove_effect out)) (call_run (remove_effect out) (removed out j d e))),
  ground (arith, node_at-erase out out d.names),
)

settled_lem :
    (input out : FilePath) (o : Reads) (j : ℕ) (r : Result CryptoError ℕ) (d : Disk)
    → node_at out d.names ≡ some (file j)
    → Copied o j r d
    → Ended input out o (settled input out r (still d)).0 (settled input out r (still d)).1.disk
unfolding pure
settled_lem input out none j r d e c =
    let (d', run, gone) = fails input out j d e in
    rw c (subst (λ x. Ended input out none x.0 x.1.disk) (sym run) (refl, gone))
settled_lem input out (some (reads, true)) j r d e c =
    let (d', run, gone) = fails input out j d e in
    rw c (subst (λ x. Ended input out (some (reads, true)) x.0 x.1.disk) (sym run) (refl, gone))
settled_lem input out (some (reads, false)) j r d e (n, c, content) =
    subst
      (λ x.
        Ended input out (some (reads, false)) (settled input out x (still d)).0
          (settled input out x (still d)).1.disk)
      (sym c) (refl, (j, e, content))

module _ {Identity : Type 0} (open_age : Identity → List ℕ → Reads) (id : Identity) where
  decrypt_stream_lem :
      (i j : ℕ) (d d' : Disk) (o : Reads)
      → open_age id (d.bytes i) ≡ o
      → d'.bytes i ≡ d.bytes i
      → decrypt_stream open_age id (file i) j (still d') ≡ copy_opened j o (still d')
  unfolding decrypt_stream read_effect
  decrypt_stream_lem i j d d' o known same =
      bind_ok (wrap_err unreadable (call (read_effect (file i)))) _
        (wrap_run _ unreadable (call_run (read_effect (file i)) refl))
      ∙ ap (λ x. copy_opened j x (still d')) (ap (open_age id) same ∙ known)

  decrypt_to_lem :
      (input out : FilePath) (i : ℕ) (d : Disk) (o : Reads)
      → node_at input d.names ≡ some (file i)
      → Clear out i d
      → open_age id (d.bytes i) ≡ o
      → AllFilled o
      → Ended input out o
          (decrypt_to open_age id input out (still d)).0
          (decrypt_to open_age id input out (still d)).1.disk
  unfolding decrypt_to read_open_effect
  decrypt_to_lem input out i d o there clear known filled =
      let (j, d₁, opening, opened) = opens out i d clear in
      let (r, d₂, copying, names, copied) = copied_lem o j d₁ filled opened.empty in
      let run : decrypt_to open_age id input out (still d) ≡ settled input out r (still d₂) =
        bind_ok (sys (read_open_effect input)) _ (
          wrap_run _ io (
            call_run (read_open_effect input) {r = ok (file i)}
              (rw (there, read_open_effect) refl)))
        ∙ (bind_ok (sys (open_effect false out)) _
              (wrap_run _ io (call_run (open_effect false out) opening))
            ∙ bind_ok (attempt (decrypt_stream open_age id (file i) j)) _
                (attempt_run _ (decrypt_stream_lem i j d d₁ o known opened.input ∙ copying))) in
      subst (λ x. Ended input out o x.0 x.1.disk) (sym run)
        (settled_lem input out o j r d₂ (ap (node_at out) names ∙ opened.there) copied)

  -- When nobody else touches the disk and no call fails, the decryption of a file whose name ends in
  -- `.age` ends as what age makes of the file says: where age yields the whole plain text, it
  -- succeeds and the output holds exactly that; where age refuses the file, or breaks off at any
  -- point of it, it fails and the output is not there. The output is no directory and not the
  -- encrypted file itself, and the reads of the plain text are not empty before its end.
  pub decrypt_file_lem :
      (output : Option FilePath) (input : FilePath) (stem : String) (i : ℕ) (d : Disk)
      → stem_of input ≡ some stem
      → node_at input d.names ≡ some (file i)
      → Clear (out_path output input stem) i d
      → AllFilled (open_age id (d.bytes i))
      → Ended input
          (out_path output input stem)
          (open_age id (d.bytes i))
          (decrypt_file open_age id output input (still d)).0
          (decrypt_file open_age id output input (still d)).1.disk
  unfolding decrypt_file pure
  decrypt_file_lem output input stem i d named there clear filled =
      let out = out_path output input stem in
      let run : decrypt_file open_age id output input (still d)
          ≡ decrypt_to open_age id input out (still d) =
        bind_ok (lift_some (not_age input) (stem_of input)) _
          (ap (λ o. lift_some (not_age input) o (still d)) named) in
      subst (λ x. Ended input out (open_age id (d.bytes i)) x.0 x.1.disk) (sym run)
        (decrypt_to_lem input out i d (open_age id (d.bytes i)) there clear refl filled)
