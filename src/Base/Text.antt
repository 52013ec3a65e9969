-- ===== src/Base/Text.antt =====
-- Texts as the code walks them: suffix and prefix tests, ASCII lower case, splitting, trimming.
pub mod Split
pub mod Trim
use Prim.Native.Char.{code}
use Prim.Native.Nat.{◌/◌}
use mathlib.Core.Option
use ftp_reolink.Base.{
  ℕ, ◌+◌, String, ◌<>◌, Bool, true, false, ◌||◌, ◌&&◌, ◌%◌, Option, none, some, List, [], ◌∷◌, ◌++◌,
  map, ltb, leb, ◌==◌, string_eq, if◌then◌else◌, nat_eq,
}

-- `str::ends_with`
unfoldable pub ends_with : String → String → Bool
ends_with String.[] t = String.[] == t
ends_with (String.◌∷◌ c s) t = (String.◌∷◌ c s) == t || ends_with s t

abbrev pub codes : String → List ℕ
codes String.[] = []
codes (String.◌∷◌ c s) = code c ∷ codes s

-- `u8::to_ascii_lowercase`, on code points: it changes the upper case letters only.
abbrev pub lower_code : ℕ → ℕ
lower_code c = if leb b'A' c && leb c b'Z' then c + 32 else c

-- `str::to_ascii_lowercase`
abbrev pub to_ascii_lowercase : String → List ℕ
to_ascii_lowercase s = map lower_code (codes s)

-- `str::starts_with`, on code points
unfoldable pub starts_with : List ℕ → List ℕ → Bool
starts_with s [] = true
starts_with [] (x ∷ t) = false
starts_with (c ∷ s) (x ∷ t) = c == x && starts_with s t

unfoldable pub codes_equal : List ℕ → List ℕ → Bool
codes_equal [] [] = true
codes_equal (c ∷ s) (x ∷ t) = c == x && codes_equal s t
codes_equal _ _ = false

unfoldable pub cons_head : String → List String → List String
cons_head c [] = c ∷ []
cons_head c (s ∷ rest) = (c <> s) ∷ rest

-- `str::split` at one character: the texts between its places, one more than there are places.
unfoldable pub split : ℕ → String → List String
unfolding cons_head
split separator String.[] = "" ∷ []
split separator (String.◌∷◌ c s) =
    let rest = split separator s in
    if code c == separator then "" ∷ rest else cons_head (String.◌∷◌ c "") rest

-- `[String]::join`
unfoldable pub join_texts : String → List String → String
join_texts separator [] = ""
join_texts separator (s ∷ []) = s
join_texts separator (s ∷ t ∷ rest) = s <> (separator <> join_texts separator (t ∷ rest))

-- `char::is_whitespace`
unfoldable pub is_whitespace : ℕ → Bool
is_whitespace c =
    leb 9 c && leb c 13
    || c == 32
    || c == 133
    || c == 160
    || c == 5760
    || leb 8192 c && leb c 8202
    || c == 8232
    || c == 8233
    || c == 8239
    || c == 8287
    || c == 12288

-- `str::trim_start`
unfoldable pub trim_start : String → String
trim_start String.[] = ""
trim_start (String.◌∷◌ c s) =
    let rest = trim_start s in if is_whitespace (code c) then rest else String.◌∷◌ c s

abbrev pub keep_inner : Bool → String → String → String
keep_inner true c String.[] = ""
keep_inner false c String.[] = c
keep_inner white c (String.◌∷◌ d s) = c <> String.◌∷◌ d s

-- `str::trim_end_matches`
unfoldable pub trim_end_matches : (ℕ → Bool) → String → String
trim_end_matches p String.[] = ""
trim_end_matches p (String.◌∷◌ c s) =
    keep_inner (p (code c)) (String.◌∷◌ c "") (trim_end_matches p s)

-- `str::trim_end`
abbrev pub trim_end : String → String
trim_end = trim_end_matches is_whitespace

-- `str::trim`
unfoldable pub trim : String → String
unfolding trim_start
trim s = trim_end (trim_start s)

-- `str::strip_suffix`
unfoldable pub strip_suffix : String → String → Option String
strip_suffix String.[] t = if t == "" then some "" else none
strip_suffix (String.◌∷◌ c s) t =
    let rest = strip_suffix s t in
    if (String.◌∷◌ c s) == t then some "" else Option.map (λ u. String.◌∷◌ c "" <> u) rest

abbrev pub strip_return : String → String
strip_return s = elim (strip_suffix s "\r") [ some u ↦ u | none ↦ s ]

abbrev pub lines_of : List String → List String
lines_of [] = []
lines_of (s ∷ []) = if s == "" then [] else s ∷ []
lines_of (s ∷ t ∷ rest) = strip_return s ∷ lines_of (t ∷ rest)

-- `str::lines`: a line ends in a line feed, or in a carriage return and a line feed.
unfoldable pub lines : String → List String
unfolding split strip_suffix
lines s = lines_of (split b'\n' s)

-- The bytes of a character in UTF-8.
unfoldable pub utf8 : ℕ → List ℕ
utf8 c =
    if ltb c 128
    then c ∷ []
    else if ltb c 2048
    then (192 + c / 64) ∷ (128 + c % 64) ∷ []
    else if ltb c 65536
    then (224 + c / 4096) ∷ (128 + (c / 64) % 64) ∷ (128 + c % 64) ∷ []
    else (240 + c / 262144) ∷ (128 + (c / 4096) % 64) ∷ (128 + (c / 64) % 64) ∷ (128 + c % 64) ∷ []

-- `str::as_bytes`
unfoldable pub as_bytes : String → List ℕ
unfolding utf8
as_bytes String.[] = []
as_bytes (String.◌∷◌ c s) = utf8 (code c) ++ as_bytes s
