-- ===== src/Refresh/Entry.antt =====
-- An entry of a parsed feed document, and `_entry_article_url` and `_aware_datetime` of
-- feeds/services.py. The parser is not modelled: an entry is what `entry.get` answers, with `""`
-- and `none` for a missing key.
use daily_firehose.Common.{
  ℕ, String, Bool, true, false, ◌&&◌, Option, none, some, List, [], ◌∷◌, str_eq, truthy, or_else,
  if◌then◌else◌,
}

pub record Link : Type 0 where
  pub href : String
  pub rel : String
  pub media_type : String

-- A time as the document states it: a text, or the first six numbers of a parsed time.
pub data TimeValue : Type 0 where
  text : String → TimeValue
  parts : List ℕ → TimeValue

pub record Entry : Type 0 where
  pub id : String
  pub link : String
  pub links : List Link
  pub title : String
  pub author : String
  pub summary : String
  pub published_parsed : Option TimeValue
  pub updated_parsed : Option TimeValue
  pub published : Option TimeValue
  pub updated : Option TimeValue

abbrev is_alternate : Link → Bool
is_alternate l = truthy l.href && str_eq l.rel "alternate" && str_eq l.media_type "text/html"

abbrev first_alternate : String → List Link → String
first_alternate fallback [] = fallback
first_alternate fallback (l ∷ rest) =
    if is_alternate l then l.href else first_alternate fallback rest

unfoldable pub entry_article_url : Entry → String
entry_article_url e = first_alternate (or_else e.link e.id) e.links

-- `bool(value)`: an empty text or an empty tuple is false
abbrev is_set : Option TimeValue → Bool
is_set none = false
is_set (some (text s)) = truthy s
is_set (some (parts [])) = false
is_set (some (parts (n ∷ rest))) = true

abbrev either_time : Option TimeValue → Option TimeValue → Option TimeValue
either_time a b = if is_set a then a else b

unfoldable pub entry_time : Entry → Option TimeValue
entry_time e =
    either_time e.published_parsed
      (either_time e.updated_parsed (either_time e.published e.updated))

-- `convert` is the library's parsing of a date, taken as UTC where it names no zone; it is `none`
-- where that raises `TypeError` or `ValueError`
unfoldable pub aware_datetime : (TimeValue → Option ℕ) → ℕ → Option TimeValue → ℕ
aware_datetime convert now none = now
aware_datetime convert now (some value) = elim (convert value) [ none ↦ now | some t ↦ t ]
