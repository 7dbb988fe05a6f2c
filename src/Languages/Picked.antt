-- ===== src/Languages/Picked.antt =====
-- The language that a request gets.
use proxywi.Common.{
  if◌then◌else◌, ◌≡◌, refl, sym, ap, ◌∙◌, ◌≢◌, ◌⊎◌, inl, inr, Option, none, some, List, [], ◌∷◌,
  Bool-cases, Option-cases, Bytes, same, same→eq, is_empty,
}
use proxywi.Common.Map.{Map, bytes_eq, get, put, get-put}
use proxywi.Languages.{
  Bundle, Locales, Loaded, default_lang, or_english, Entry, load, load_all, load_entry, cut_json,
  pick, first_bundle, or_bundle, or_value, filled_value, translate, from_request, normalize,
  parse_accept_lang, or_empty,
}

-- A bundle stands under its own tag.
abbrev Keyed : Map Bytes Bundle → Type 0
Keyed m = (k : Bytes) (b : Bundle) → get m k ≡ some b → b.lang ≡ k

put-Keyed :
    (m : Map Bytes Bundle) (tag : Bytes) (strings : Map Bytes Bytes)
    → Keyed m
    → Keyed (put m tag (record { lang = tag; strings = strings }))
put-Keyed m tag strings h k b e =
    let b' : Bundle = record { lang = tag; strings = strings } in
    elim (Bool-cases (same tag k)) [
      | inl q ↦
          let same_bundle : b' ≡ b = cc (rw (get-put m tag k b', q) at e) in
          sym (ap (λ (x : Bundle). x.lang) same_bundle) ∙ same→eq tag k q
      | inr q ↦ h k b (rw (get-put m tag k b', q) at e)
    ]

entry-Keyed : (e : Entry) (l : Loaded) → Keyed l.bundles → Keyed (load_entry e l).bundles
entry-Keyed e l h = elim (Option-cases (cut_json e.name)) [
  | inl q ↦ rw (load_entry, q) h
  | inr (tag, q) ↦ elim (Option-cases e.strings) [
    | inl r ↦ rw (load_entry, q, r) h
    | inr (m, r) ↦ elim (Bool-cases e.is_dir) [
      | inl d ↦ rw (load_entry, q, r, d) h
      | inr d ↦ rw (load_entry, q, r, d) (put-Keyed l.bundles tag m h)
    ]
  ]
]

all-Keyed :
    (entries : List Entry) (l : Loaded) → Keyed l.bundles → Keyed (load_all entries l).bundles
all-Keyed [] l h = h
all-Keyed (e ∷ entries) l h = all-Keyed entries (load_entry e l) (entry-Keyed e l h)

load-Keyed : (entries : List Entry) → Keyed (load entries).bundles
unfolding load get
load-Keyed entries =
    all-Keyed entries (record { bundles = []; fallback = none; available = [] })
      (λ k b e. absurd cc)

-- Loaded under its own tag, or the fallback.
abbrev pub Known : Locales → Bundle → Type 0
Known l b = (get l.bundles b.lang ≡ some b) ⊎ (b ≡ l.fallback)

bundle-Known :
    (l : Locales) (tag : Bytes) (b : Bundle)
    → Keyed l.bundles
    → get l.bundles tag ≡ some b
    → Known l b
bundle-Known l tag b h e = inl (ap (get l.bundles) (h tag b e) ∙ e)

first-Known :
    (l : Locales) (tags : List Bytes)
    → Keyed l.bundles
    → Known l (or_bundle (first_bundle l.bundles tags) l.fallback)
first-Known l [] h = inr refl
first-Known l (tag ∷ tags) h = elim (Option-cases (get l.bundles tag)) [
  | inl e ↦ rw (or_bundle, first_bundle, e) (first-Known l tags h)
  | inr (b, e) ↦ rw (or_bundle, first_bundle, e) (bundle-Known l tag b h e)
]

pick-Known :
    (l : Locales) (override accept_lang : Bytes)
    → Keyed l.bundles
    → Known l (pick l override accept_lang)
unfolding pick
pick-Known l override accept_lang h = elim (Bool-cases (is_empty override)) [
  | inl e ↦ rw e (first-Known l (parse_accept_lang accept_lang) h)
  | inr e ↦ elim (Option-cases (get l.bundles (normalize override))) [
    | inl q ↦ rw (e, q) (first-Known l (parse_accept_lang accept_lang) h)
    | inr (b, q) ↦ rw (e, q) (bundle-Known l (normalize override) b h q)
  ]
]

-- The first bundle of a list of tags, or the fallback where none is loaded.
abbrev pub First : Locales → List Bytes → Bundle → Type 0
First l [] b = b ≡ l.fallback
First l (tag ∷ tags) b =
    (get l.bundles tag ≡ some b) ⊎ ((get l.bundles tag ≡ none) × First l tags b)

-- The bundle of the cookie's language, where it is loaded; else the first of the header's languages.
abbrev pub Chosen : Locales → Bytes → Bytes → Bundle → Type 0
Chosen l override accept_lang b =
    ((override ≢ []) × (get l.bundles (normalize override) ≡ some b))
    ⊎ (((override ≡ []) ⊎ (get l.bundles (normalize override) ≡ none))
        × First l (parse_accept_lang accept_lang) b)

first_bundle-First :
    (l : Locales) (tags : List Bytes)
    → First l tags (or_bundle (first_bundle l.bundles tags) l.fallback)
first_bundle-First l [] = refl
first_bundle-First l (tag ∷ tags) = elim (Option-cases (get l.bundles tag)) [
  | inl e ↦ rw (first_bundle, e) (inr (refl, first_bundle-First l tags))
  | inr (b, e) ↦ rw (first_bundle, e) (inl refl)
]

pick-Chosen :
    (l : Locales) (override accept_lang : Bytes)
    → Chosen l override accept_lang (pick l override accept_lang)
unfolding pick
pick-Chosen l [] accept_lang = inr (inl refl, first_bundle-First l (parse_accept_lang accept_lang))
pick-Chosen l (c ∷ s) accept_lang = elim (Option-cases (get l.bundles (normalize (c ∷ s)))) [
  | inl q ↦ rw q (inr (inr refl, first_bundle-First l (parse_accept_lang accept_lang)))
  | inr (b, q) ↦ rw q (inl ((λ e. absurd cc), refl))
]

-- The fallback so far is of the default language.
English : Option Bundle → Type 0
English none = Unit
English (some b) = b.lang ≡ default_lang

add-English :
    (tag : Bytes) (m : Map Bytes Bytes) (o : Option Bundle)
    → English o
    → English (if same tag default_lang then some (record { lang = tag; strings = m }) else o)
unfolding English
add-English tag m o h = elim (Bool-cases (same tag default_lang)) [
  | inl e ↦ rw e (same→eq tag default_lang e)
  | inr e ↦ rw e h
]

entry-English : (e : Entry) (l : Loaded) → English l.fallback → English (load_entry e l).fallback
entry-English e l h = elim (Option-cases (cut_json e.name)) [
  | inl q ↦ rw (load_entry, q) h
  | inr (tag, q) ↦ elim (Option-cases e.strings) [
    | inl r ↦ rw (load_entry, q, r) h
    | inr (m, r) ↦ elim (Bool-cases e.is_dir) [
      | inl d ↦ rw (load_entry, q, r, d) h
      | inr d ↦ rw (load_entry, q, r, d) (add-English tag m l.fallback h)
    ]
  ]
]

all-English :
    (entries : List Entry) (l : Loaded) → English l.fallback → English (load_all entries l).fallback
all-English [] l h = h
all-English (e ∷ entries) l h = all-English entries (load_entry e l) (entry-English e l h)

or_english-lang : (o : Option Bundle) → English o → (or_english o).lang ≡ default_lang
unfolding English
or_english-lang none h = refl
or_english-lang (some b) h = h

load-fallback : (entries : List Entry) → (load entries).fallback.lang ≡ default_lang
unfolding load English
load-fallback entries =
    or_english-lang _
      (all-English entries (record { bundles = []; fallback = none; available = [] }) tt)

-- A text that a bundle has for a key; or it has none, or an empty one.
abbrev pub Reads : Bundle → Bytes → Bytes → Type 0
Reads b key v = (get b.strings key ≡ some v) × (v ≢ [])

abbrev pub Lacks : Bundle → Bytes → Type 0
Lacks b key = (get b.strings key ≡ none) ⊎ (get b.strings key ≡ some [])

-- The text of the bundle, else of the fallback, else the key itself.
abbrev pub Translated : Bundle → Bundle → Bytes → Bytes → Type 0
Translated b fallback key v =
    Reads b key v ⊎ (Lacks b key × (Reads fallback key v ⊎ (Lacks fallback key × (v ≡ key))))

or_value-Reads :
    (b : Bundle) (key d : Bytes)
    → let v = or_value (filled_value (get b.strings key)) d in
      Reads b key v ⊎ (Lacks b key × (v ≡ d))
or_value-Reads b key d = read (get b.strings key)
  where
    read :
        (o : Option Bytes)
        → let v = or_value (filled_value o) d in
          ((o ≡ some v) × (v ≢ [])) ⊎ (((o ≡ none) ⊎ (o ≡ some [])) × (v ≡ d))
    read none = inr (inl refl, refl)
    read (some []) = inr (inr refl, refl)
    read (some (c ∷ s)) = inl (refl, λ e. absurd cc)

read_twice :
    (b fallback : Bundle) (key : Bytes)
    → Translated b fallback key (
        or_value
          (filled_value (get b.strings key))
          (or_value (filled_value (get fallback.strings key)) key))
read_twice b fallback key =
    let d = or_value (filled_value (get fallback.strings key)) key in
    elim (or_value-Reads b key d) [
      | inl reads ↦ inl reads
      | inr (lacks, e) ↦ rw e (inr (lacks, or_value-Reads fallback key key))
    ]

-- Whatever the locale files are, and for every key: the bundle is that of the cookie's language, if
-- it is loaded, else the first that is loaded of the header's languages, else the fallback; the
-- language that a page names is the bundle's, under which it is loaded unless it is the fallback; the
-- fallback is English; and a key is translated by the bundle's text, else, where that is missing or empty, by the fallback's,
-- else by itself.
pub from_request-Chosen :
    (entries : List Entry) (cookie : Option Bytes) (accept_lang key : Bytes)
    → let l = load entries in
      let (lang, tr) = from_request l cookie accept_lang in
      (b : Bundle) × Chosen l (or_empty cookie) accept_lang b
      × (lang ≡ b.lang)
      × Known l b
      × (l.fallback.lang ≡ default_lang)
      × Translated b l.fallback key (tr key)
unfolding from_request translate
from_request-Chosen entries cookie accept_lang key =
    let l = load entries in
    let b = pick l (or_empty cookie) accept_lang in
    (
      b,
      pick-Chosen l (or_empty cookie) accept_lang,
      refl,
      pick-Known l (or_empty cookie) accept_lang (load-Keyed entries),
      load-fallback entries,
      read_twice b l.fallback key,
    )
