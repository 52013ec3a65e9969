-- ===== src/Base/Text/Trim.antt =====
-- Trimming undoes padding with white space.
use Prim.Native.Char.{code}
use text.Mathlib.TextLemmas.{nil-append, cons-append}
use ftp_reolink.Base.{String, ◌<>◌, true, false, ◌≡◌, refl, nat_eq, arith}
use ftp_reolink.Base.Text.{is_whitespace, trim_start, trim_end_matches, trim_end, trim}
use ftp_reolink.Base.Text.Split.{Lacks}

-- All of the text is white space.
unfoldable pub Blank : String → Type 0
Blank String.[] = Unit
Blank (String.◌∷◌ c s) = (is_whitespace (code c) ≡ true) × Blank s

-- The text begins, or ends, with a character that is no white space.
abbrev pub SolidStart : String → Type 0
SolidStart String.[] = ⊥
SolidStart (String.◌∷◌ c s) = is_whitespace (code c) ≡ false

unfoldable pub SolidEnd : String → Type 0
SolidEnd String.[] = ⊥
SolidEnd (String.◌∷◌ c String.[]) = is_whitespace (code c) ≡ false
SolidEnd (String.◌∷◌ c (String.◌∷◌ d s)) = SolidEnd (String.◌∷◌ d s)

pub Blank-Lacks : (s : String) → Blank s → Lacks b',' s
unfolding Blank Lacks is_whitespace
Blank-Lacks String.[] h = tt
Blank-Lacks (String.◌∷◌ c s) (h, hs) = (λ e. ground (arith), Blank-Lacks s hs)

trim_start-padded : (s t : String) → Blank s → SolidStart t → trim_start (s <> t) ≡ t
unfolding Blank trim_start
trim_start-padded String.[] String.[] h k = absurd k
trim_start-padded String.[] (String.◌∷◌ c t) h k = ground (arith, nil-append (String.◌∷◌ c t))
trim_start-padded (String.◌∷◌ c s) t (h, hs) k =
    ground (arith, trim_start-padded s t hs k, cons-append c s t)

trim_end-Blank : (s : String) → Blank s → trim_end s ≡ ""
unfolding Blank trim_end_matches
trim_end-Blank String.[] h = refl
trim_end-Blank (String.◌∷◌ c s) (h, hs) = rw (trim_end-Blank s hs, h)

trim_end-padded : (s t : String) → SolidEnd s → Blank t → trim_end (s <> t) ≡ s
unfolding SolidEnd trim_end_matches
trim_end-padded String.[] t h k = absurd h
trim_end-padded (String.◌∷◌ c String.[]) t h k =
    rw (cons-append c "" t, nil-append t, trim_end-Blank t k, h)
trim_end-padded (String.◌∷◌ c (String.◌∷◌ d s)) t h k = rw (
  cons-append c (String.◌∷◌ d s) t,
  trim_end-padded (String.◌∷◌ d s) t h k,
  cons-append c "" (String.◌∷◌ d s),
  nil-append (String.◌∷◌ d s),
)

SolidStart-append : (s t : String) → SolidStart s → SolidStart (s <> t)
SolidStart-append String.[] t h = absurd h
SolidStart-append (String.◌∷◌ c s) t h = rw (cons-append c s t) h

pub trim-padded :
    (before name after : String)
    → Blank before
    → SolidStart name
    → SolidEnd name
    → Blank after
    → trim (before <> (name <> after)) ≡ name
unfolding trim
trim-padded before name after b s e a = rw (
  trim_start-padded before (name <> after) b (SolidStart-append name after s),
  trim_end-padded name after e a,
)
