-- ===== src/Cli/Viewers.antt =====
-- About `render_viewer_entry` of src/cli.rs: the texts that it writes.
use native.Mathlib.Decide.{ℕ_discrete}
use text.Mathlib.TextLemmas.{append_assoc}
use ftp_reolink.Base.{
  true, sym, String, ◌<>◌, List, [], ◌∷◌, ◌≡◌, ◌≢◌, refl, ap, ◌∙◌, map, All, string_eq, arith,
}
use ftp_reolink.Base.Text.{split, trim, join_texts}
use ftp_reolink.Base.Text.Split.{
  Lacks, Lacks-append, lacks, lacks-Lacks, split-Lacks, split-between, split-join_texts,
}
use ftp_reolink.Base.Text.Trim.{Blank, SolidStart, SolidEnd, Blank-Lacks, trim-padded}
use ftp_reolink.Cli.{quoted, scope_items, scope_toml, render_viewer_entry}

-- A name as an administrator types it, with blanks around it.
pub record Item : Type 0 where
  pub before : String
  pub name : String
  pub after : String

abbrev pub typed : Item → String
typed item = item.before <> (item.name <> item.after)

-- The text has no quote and no backslash.
pub record IsPlain (s : String) : Type 0 where
  pub no_quote : Lacks b'"' s
  pub no_backslash : Lacks b'\\' s

-- The name is plain and not empty, has no comma, and has no white space at its ends.
pub record IsItem (item : Item) : Type 0 where
  pub before_blank : Blank item.before
  pub after_blank : Blank item.after
  pub plain : IsPlain item.name
  pub no_comma : Lacks b',' item.name
  pub starts : SolidStart item.name
  pub ends : SolidEnd item.name

abbrev pub name_of : Item → String
name_of item = item.name

typed-Lacks : (item : Item) → IsItem item → Lacks b',' (typed item)
typed-Lacks item h =
    Lacks-append b',' item.before (item.name <> item.after) (Blank-Lacks item.before h.before_blank)
      (Lacks-append b',' item.name item.after h.no_comma (Blank-Lacks item.after h.after_blank))

All-Lacks : (items : List Item) → All IsItem items → All (Lacks b',') (map typed items)
All-Lacks [] h = tt
All-Lacks (item ∷ items) (h, hs) = (typed-Lacks item h, All-Lacks items hs)

trimmed :
    (items : List Item)
    → All IsItem items
    → map (λ x. quoted (trim x)) (map typed items) ≡ map quoted (map name_of items)
trimmed [] h = refl
trimmed (item ∷ items) (h, hs) = rw (
  trim-padded item.before item.name item.after h.before_blank h.starts h.ends h.after_blank,
  trimmed items hs,
)

-- What stands between and after the quotes of a list of quoted names, up to the entry's end.
abbrev pub between_names : String → List String → List String
between_names n [] = n ∷ "]\n" ∷ []
between_names n (m ∷ names) = n ∷ ", " ∷ between_names m names

abbrev as_list : String → List String → String
as_list n names = (join_texts ", " (map quoted (n ∷ names)) <> "]") <> "\n"

abbrev head_line : String
head_line = "\n[[viewer]]\nname = "

abbrev hash_line : String
hash_line = "\npassword_hash = "

literals :
    (lacks b'"' head_line ≡ true)
    × (lacks b'"' hash_line ≡ true)
    × (lacks b'"' "\nscope = [" ≡ true)
    × (lacks b'"' "]\n" ≡ true)
    × (lacks b'"' ", " ≡ true)
unfolding lacks ℕ_discrete
literals = (refl, refl, refl, refl, refl)

split-as_list :
    (p n : String) (names : List String)
    → Lacks b'"' p
    → All (Lacks b'"') (n ∷ names)
    → split b'"' (p <> as_list n names) ≡ p ∷ between_names n names
unfolding join_texts
split-as_list p n [] h (k, _) =
    ap (λ u. split b'"' (p <> u)) (append_assoc (quoted n) "]" "\n")
    ∙ (split-between b'"' "\"" p n "]\n" refl h k
        ∙ ap (λ texts. p ∷ n ∷ texts) (split-Lacks b'"' "]\n" (lacks-Lacks b'"' "]\n" literals.3)))
split-as_list p n (m ∷ names) h (k, ks) =
    ap (λ u. split b'"' (p <> u)) (regroup (join_texts ", " (map quoted (m ∷ names))))
    ∙ (split-between b'"' "\"" p n (", " <> as_list m names) refl h k
        ∙ ap (λ texts. p ∷ n ∷ texts)
            (split-as_list ", " m names (lacks-Lacks b'"' ", " literals.4) ks))
  where
    regroup :
        (more : String)
        → ((quoted n <> (", " <> more)) <> "]") <> "\n"
          ≡ quoted n <> (", " <> ((more <> "]") <> "\n"))
    regroup more = rw (
      append_assoc (quoted n) (", " <> more) "]",
      append_assoc ", " more "]",
      append_assoc (quoted n) (", " <> (more <> "]")) "\n",
      append_assoc ", " (more <> "]") "\n",
    )

All-no_quote : (items : List Item) → All IsItem items → All (Lacks b'"') (map name_of items)
All-no_quote [] h = tt
All-no_quote (item ∷ items) (h, hs) = (h.plain.no_quote, All-no_quote items hs)

abbrev toml_array : List String → String
toml_array names = "[" <> (join_texts ", " (map quoted names) <> "]")

scope_toml-items :
    (scope : String) (items : List String)
    → scope ≢ "all"
    → scope_items scope ≡ map quoted items
    → scope_toml scope ≡ toml_array items
scope_toml-items scope items other e =
    ground (arith, ap (λ texts. "[" <> (join_texts ", " texts <> "]")) e)

scope_line :
    (scope n : String) (names : List String)
    → scope ≢ "all"
    → scope_items scope ≡ map quoted (n ∷ names)
    → "\nscope = " <> (scope_toml scope <> "\n") ≡ "\nscope = [" <> as_list n names
scope_line scope n names other e =
    let more = join_texts ", " (map quoted (n ∷ names)) <> "]" in
    ap (λ t. "\nscope = " <> (t <> "\n")) (scope_toml-items scope (n ∷ names) other e)
    ∙ (ap (λ t. "\nscope = " <> t) (append_assoc "[" more "\n")
        ∙ sym (append_assoc "\nscope = " "[" (more <> "\n")))

-- The scope of a viewer, typed as names joined by commas, with blanks around them or not, that does
-- not come to `all`; and let the viewer's name, the hash and the names be plain. What stands between
-- the quotes of the entry is then, in this order, the name, the hash and exactly the names of the
-- scope, and around the quotes stands the TOML of a table with two texts and an array of texts.
pub split-render_viewer_entry :
    (name hash : String) (item : Item) (items : List Item)
    → IsPlain name
    → IsPlain hash
    → All IsItem (item ∷ items)
    → join_texts "," (map typed (item ∷ items)) ≢ "all"
    → split b'"' (render_viewer_entry name hash (join_texts "," (map typed (item ∷ items))))
      ≡ "\n[[viewer]]\nname = "
        ∷ name
        ∷ "\npassword_hash = "
        ∷ hash
        ∷ "\nscope = ["
        ∷ between_names item.name (map name_of items)
unfolding render_viewer_entry
split-render_viewer_entry name hash item items plain plain_hash h other =
    let scope = join_texts "," (map typed (item ∷ items)) in
    let tail = "\nscope = " <> (scope_toml scope <> "\n") in
    split-between b'"' "\"" head_line name (hash_line <> (quoted hash <> tail)) refl
      (lacks-Lacks b'"' head_line literals.0) plain.no_quote
    ∙ ap (λ (texts : List String). head_line ∷ name ∷ texts)
        (split-between b'"' "\"" hash_line hash tail refl (lacks-Lacks b'"' hash_line literals.1)
            plain_hash.no_quote
          ∙ ap (λ (texts : List String). hash_line ∷ hash ∷ texts)
              (ap (split b'"') (
                  scope_line scope item.name (map name_of items) other (
                    ap (map (λ x. quoted (trim x)))
                      (split-join_texts (typed item) (map typed items) (All-Lacks (item ∷ items) h))
                    ∙ trimmed (item ∷ items) h))
                ∙ split-as_list "\nscope = [" item.name (map name_of items)
                    (lacks-Lacks b'"' "\nscope = [" literals.2) (All-no_quote (item ∷ items) h)))
