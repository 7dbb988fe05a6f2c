-- ===== src/Languages.antt =====
-- internal/i18n/i18n.go. The embedded locale files are an argument: their names, in the order of
-- the directory, and their strings where they can be read; lookups are those of Go maps.
pub mod Picked
use proxywi.Common.{
  ℕ, zero, suc, ◌+◌, ◌-◌, Bool, ◌&&◌, not, Option, none, some, List, [], ◌∷◌, ◌++◌, leb,
  if◌then◌else◌, length, take, drop, Bytes, codes, same, is_empty, index_byte, split, trim_space,
  to_lower,
}
use proxywi.Common.Map.{Map, bytes_eq, get, put}

pub record Bundle : Type 0 where
  pub lang : Bytes
  pub strings : Map Bytes Bytes

pub record LangInfo : Type 0 where
  pub tag : Bytes
  pub name : Bytes

-- The package's variables after `load`.
pub record Locales : Type 0 where
  pub bundles : Map Bytes Bundle
  pub fallback : Bundle
  pub available : List LangInfo

-- An entry of the directory: its name, whether it is a directory, and its strings, none where it
-- cannot be read or decoded.
pub record Entry : Type 0 where
  pub name : Bytes
  pub is_dir : Bool
  pub strings : Option (Map Bytes Bytes)

abbrev pub default_lang : Bytes
default_lang = codes "en"

abbrev json_suffix : Bytes
json_suffix = codes ".json"

-- strings.CutSuffix(name, ".json")
unfoldable pub cut_json : Bytes → Option Bytes
unfolding same
cut_json name =
    let n = length name - 5 in
    if leb 5 (length name) && same (drop n name) json_suffix then some (take n name) else none

abbrev pub or_empty : Option Bytes → Bytes
or_empty none = []
or_empty (some s) = s

abbrev pub or_tag : Bytes → Bytes → Bytes
or_tag [] tag = tag
or_tag (c ∷ name) tag = c ∷ name

-- What the loop has made so far; `fallback` is none for nil.
pub record Loaded : Type 0 where
  pub bundles : Map Bytes Bundle
  pub fallback : Option Bundle
  pub available : List LangInfo

abbrev pub add_locale : Bytes → Map Bytes Bytes → Loaded → Loaded
add_locale tag m l =
    let b : Bundle = record { lang = tag; strings = m } in
    record {
      bundles = put l.bundles tag b;
      fallback = if same tag default_lang then some b else l.fallback;
      available =
          l.available
          ++ (record { tag = tag; name = or_tag (or_empty (get m (codes "lang.name"))) tag } ∷ []);
    }

-- One entry: what is no file of that suffix, or is not decoded, is passed over.
abbrev pub load_entry : Entry → Loaded → Loaded
load_entry e l = elim (cut_json e.name) [
  | none ↦ l
  | some tag ↦ elim e.strings [ none ↦ l | some m ↦ if e.is_dir then l else add_locale tag m l ]
]

abbrev pub load_all : List Entry → Loaded → Loaded
load_all [] l = l
load_all (e ∷ entries) l = load_all entries (load_entry e l)

abbrev pub or_english : Option Bundle → Bundle
or_english none = record { lang = default_lang; strings = [] }
or_english (some b) = b

unfoldable pub load : List Entry → Locales
unfolding cut_json
load entries =
    let l = load_all entries (record { bundles = []; fallback = none; available = [] }) in
    record { bundles = l.bundles; fallback = or_english l.fallback; available = l.available }

unfoldable pub normalize : Bytes → Bytes
normalize s = to_lower (trim_space s)

-- tag[:i] for the index of a byte.
abbrev pub before : ℕ → Bytes → Bytes
before c s = elim (index_byte s c) [ none ↦ s | some i ↦ take i s ]

-- The tag, and its language where it has a region.
abbrev pub with_language : Bytes → Option ℕ → List Bytes
with_language tag none = tag ∷ []
with_language tag (some zero) = tag ∷ []
with_language tag (some (suc i)) = tag ∷ take (suc i) tag ∷ []

abbrev pub tags_of : List Bytes → List Bytes
tags_of [] = []
tags_of (part ∷ parts) =
    let rest = tags_of parts in
    let tag = normalize (before b';' (trim_space part)) in
    if is_empty tag then rest else with_language tag (index_byte tag b'-') ++ rest

unfoldable pub parse_accept_lang : Bytes → List Bytes
unfolding normalize
parse_accept_lang h = if is_empty h then [] else tags_of (split h b',')

-- The first of the tags that has a bundle.
abbrev pub first_bundle : Map Bytes Bundle → List Bytes → Option Bundle
first_bundle m [] = none
first_bundle m (tag ∷ tags) =
    let rest = first_bundle m tags in elim (get m tag) [ none ↦ rest | some b ↦ some b ]

abbrev pub or_bundle : Option Bundle → Bundle → Bundle
or_bundle none d = d
or_bundle (some b) d = b

-- override may be "".
unfoldable pub pick : Locales → Bytes → Bytes → Bundle
unfolding parse_accept_lang normalize
pick l override accept_lang =
    let asked = or_bundle (first_bundle l.bundles (parse_accept_lang accept_lang)) l.fallback in
    if not (is_empty override) then or_bundle (get l.bundles (normalize override)) asked else asked

-- The value of a key that is there and not empty.
abbrev pub filled_value : Option Bytes → Option Bytes
filled_value none = none
filled_value (some []) = none
filled_value (some (c ∷ s)) = some (c ∷ s)

abbrev pub or_value : Option Bytes → Bytes → Bytes
or_value none d = d
or_value (some v) d = v

-- The translator that `For` returns.
unfoldable pub translate : Locales → Bytes → Bytes → Bytes → Bytes
unfolding pick
translate l override accept_lang key =
    let b = pick l override accept_lang in
    or_value (filled_value (get b.strings key))
      (or_value (filled_value (get l.fallback.strings key)) key)

-- The `lang` cookie and the Accept-Language header of a request.
unfoldable pub from_request : Locales → Option Bytes → Bytes → Bytes × (Bytes → Bytes)
unfolding translate
from_request l cookie accept_lang =
    let override = or_empty cookie in
    ((pick l override accept_lang).lang, translate l override accept_lang)
