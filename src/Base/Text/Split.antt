-- ===== src/Base/Text/Split.antt =====
-- Splitting undoes joining.
use Prim.Native.Char.{Char, code}
use text.Mathlib.TextLemmas.{nil-append, cons-append, append_assoc}
use ftp_reolink.Base.{
  Bool, true, ◌==◌, ◌&&◌, not, ℕ, String, ◌<>◌, List, [], ◌∷◌, ◌≡◌, ◌≢◌, refl, ap, ◌∙◌, All, nat_eq,
  arith,
}
use ftp_reolink.Base.Text.{cons_head, split, join_texts}

-- The character does not occur in the text.
unfoldable pub Lacks : ℕ → String → Type 0
Lacks c String.[] = Unit
Lacks c (String.◌∷◌ d s) = (code d ≢ c) × Lacks c s

-- The same, computed.
unfoldable pub lacks : ℕ → String → Bool
lacks c String.[] = true
lacks c (String.◌∷◌ d s) = not (code d == c) && lacks c s

pub lacks-Lacks : (c : ℕ) (s : String) → lacks c s ≡ true → Lacks c s
unfolding Lacks lacks
lacks-Lacks c String.[] h = tt
lacks-Lacks c (String.◌∷◌ d s) h = (λ e. ground arith, lacks-Lacks c s (ground arith))

pub Lacks-append : (c : ℕ) (s t : String) → Lacks c s → Lacks c t → Lacks c (s <> t)
unfolding Lacks
Lacks-append c String.[] t h k = rw (nil-append t) k
Lacks-append c (String.◌∷◌ d s) t (h, hs) k = rw (cons-append d s t) (h, Lacks-append c s t hs k)

pub split-Lacks : (c : ℕ) (s : String) → Lacks c s → split c s ≡ s ∷ []
unfolding Lacks split cons_head
split-Lacks c String.[] h = refl
split-Lacks c (String.◌∷◌ d s) (h, hs) =
    ground (arith, split-Lacks c s hs, cons-append d "" s, nil-append s)

split-append :
    (c : ℕ) (s t : String)
    → Lacks c s
    → (d : Char) → code d ≡ c
    → split c (s <> String.◌∷◌ d t) ≡ s ∷ split c t
unfolding Lacks split cons_head
split-append c String.[] t h d e = ground (arith, nil-append (String.◌∷◌ d t))
split-append c (String.◌∷◌ b s) t (h, hs) d e = ground (
  arith,
  split-append c s t hs d e,
  cons-append b s (String.◌∷◌ d t),
  cons-append b "" s,
  nil-append s,
)

-- What stands between two places of the character.
pub split-between :
    (c : ℕ) (d : Char) (p s t : String)
    → code d ≡ c
    → Lacks c p
    → Lacks c s
    → split c (p <> ((String.◌∷◌ d "" <> (s <> String.◌∷◌ d "")) <> t)) ≡ p ∷ s ∷ split c t
split-between c d p s t e h k =
    ap (λ u. split c (p <> u)) (between s t)
    ∙ (split-append c p (s <> String.◌∷◌ d t) h d e
        ∙ ap (λ texts. p ∷ texts) (split-append c s t k d e))
  where
    between :
        (s t : String)
        → (String.◌∷◌ d "" <> (s <> String.◌∷◌ d "")) <> t ≡ String.◌∷◌ d (s <> String.◌∷◌ d t)
    between s t = rw (
      cons-append d "" (s <> String.◌∷◌ d ""),
      nil-append (s <> String.◌∷◌ d ""),
      cons-append d (s <> String.◌∷◌ d "") t,
      append_assoc s (String.◌∷◌ d "") t,
      cons-append d "" t,
      nil-append t,
    )

-- Texts without commas, joined by commas, are what splitting at commas yields.
pub split-join_texts :
    (s : String) (texts : List String)
    → All (Lacks b',') (s ∷ texts)
    → split b',' (join_texts "," (s ∷ texts)) ≡ s ∷ texts
unfolding join_texts
split-join_texts s [] (h, _) = split-Lacks b',' s h
split-join_texts s (t ∷ rest) (h, hs) =
    let more = join_texts "," (t ∷ rest) in
    ap (λ tail. split b',' (s <> tail))
      (cons-append "," "" more ∙ ap (String.◌∷◌ ",") (nil-append more))
    ∙ (split-append b',' s more h "," refl ∙ ap (λ texts. s ∷ texts) (split-join_texts t rest hs))
