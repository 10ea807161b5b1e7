-- ===== src/Opml.antt =====
-- The reading of an OPML document: `_parse_opml` of `feeds/services.py` with its helpers. The XML
-- parser, the URL parser, the validation of a model's fields and the Unicode text functions are the
-- fields of `Env`.
pub mod Examples
pub mod Export
pub mod Import
pub mod Merge
pub mod Plan
pub mod Visit
use daily_firehose.Common.{
  ℕ, suc, ◌+◌, String, Bool, true, false, not, ◌&&◌, ◌||◌, Option, none, some, List, [], ◌∷◌, ◌++◌,
  length, ltb, ◌==◌, str_eq, truthy, or_else, if◌then◌else◌, Result, ok, err, ◌>>=◌,
}

-- `ElementTree.Element`: its tag, its attributes, its children.
mutual
  pub data Element : Type 0 where
    element : String → List (String × String) → Elements → Element

  pub data Elements : Type 0 where
    nil : Elements
    cons : Element → Elements → Elements

-- `_OPMLFeed`
pub record OpmlFeed : Type 0 where
  pub title : String
  pub feed_url : String
  pub site_url : String
  pub category_name : String

-- `OPMLImportError`, and the `ValueError` of `urlsplit`
pub data ImportError : Type 0 where
  opml_import_error : String → ImportError
  value_error : ImportError

-- The libraries. `scheme` is `urlsplit(url).scheme.lower()`, none where `urlsplit` raises;
-- `clean_feed` and `clean_category` say whether `full_clean` accepts the fields; `last_part` is
-- `tag.rsplit("}", 1)[-1]`.
pub record Env : Type 0 where
  pub lower : String → String
  pub strip : String → String
  pub last_part : String → String
  pub scheme : String → Option String
  pub clean_feed : String → String → String → Bool
  pub clean_category : String → String → Bool
  pub slugify : String → String
  pub decode : List ℕ → Option String
  pub has_declaration : String → Bool
  pub from_string : String → Option Element

-- The variables of `_parse_opml` that `visit` changes; `by_url` is the lookup in `feeds`, which is
-- extended together with it.
pub record Walk : Type 0 where
  pub feeds : List OpmlFeed
  pub duplicate_count : ℕ
  pub outline_count : ℕ

abbrev pub opml_max_bytes : ℕ
opml_max_bytes = 1048576

abbrev pub opml_max_outlines : ℕ
opml_max_outlines = 1000

abbrev pub opml_max_depth : ℕ
opml_max_depth = 32

abbrev pub refuse : {A : Type 0} → String → Result ImportError A
refuse message = err (opml_import_error message)

-- `by_url.get`
unfoldable pub find_url : String → List OpmlFeed → Option OpmlFeed
find_url url [] = none
find_url url (f ∷ rest) = if str_eq f.feed_url url then some f else find_url url rest

-- `existing != parsed`, negated
abbrev pub same_feed : OpmlFeed → OpmlFeed → Bool
same_feed a b =
    str_eq a.title b.title
    && str_eq a.feed_url b.feed_url
    && str_eq a.site_url b.site_url
    && str_eq a.category_name b.category_name

abbrev pub added : OpmlFeed → Walk → Option OpmlFeed → Result ImportError Walk
added parsed walk none = ok (record walk { feeds = walk.feeds ++ parsed ∷ [] })
added parsed walk (some existing) =
    if same_feed existing parsed
    then ok (record walk { duplicate_count = walk.duplicate_count + 1 })
    else refuse "Duplicate feed URLs must have identical fields."

-- one validated feed outline
unfoldable pub add_feed : OpmlFeed → Walk → Result ImportError Walk
add_feed parsed walk = added parsed walk (find_url parsed.feed_url walk.feeds)

unfoldable pub count_outline : Walk → Result ImportError Walk
count_outline walk =
    if ltb opml_max_outlines (walk.outline_count + 1)
    then refuse "The OPML document contains too many outlines."
    else ok (record walk { outline_count = walk.outline_count + 1 })

-- `len(child)`, as a test
abbrev pub has_children : Elements → Bool
has_children nil = false
has_children (cons child rest) = true

module _ (env : Env) where
  abbrev pub xml_local_name : String → String
  xml_local_name tag = env.lower (env.last_part tag)

  unfoldable pub opml_attribute : List (String × String) → String → String
  opml_attribute [] name = ""
  opml_attribute ((key, value) ∷ rest) name =
      if str_eq (env.lower key) name then value else opml_attribute rest name

  -- `_opml_attribute(outline, "xmlurl", strip=True)`
  abbrev pub feed_url_of : List (String × String) → String
  feed_url_of attrs = env.strip (opml_attribute attrs "xmlurl")

  abbrev pub label_of : List (String × String) → String
  label_of attrs = or_else (opml_attribute attrs "title") (opml_attribute attrs "text")

  abbrev pub web_scheme : String → Option String → Result ImportError (Unit {0})
  web_scheme message none = err value_error
  web_scheme message (some s) =
      if str_eq s "http" || str_eq s "https" then ok tt else refuse message

  abbrev pub web_site : String → Result ImportError (Unit {0})
  web_site url =
      if truthy url then web_scheme "Site URLs must use HTTP or HTTPS." (env.scheme url) else ok tt

  -- the checks of a feed's fields
  unfoldable pub validated : String → String → String → String → Result ImportError OpmlFeed
  validated category_name feed_url title site_url =
      web_scheme "Feed URLs must use HTTP or HTTPS." (env.scheme feed_url) >>= λ _.
      web_site site_url >>= λ _.
      if env.clean_feed title feed_url site_url
      then ok (record {
        title = title;
        feed_url = feed_url;
        site_url = site_url;
        category_name = category_name;
      })
      else refuse "An outline contains invalid feed fields."

  unfoldable pub validated_opml_feed : List (String × String) → String → Result ImportError OpmlFeed
  validated_opml_feed attrs category_name =
      validated category_name (feed_url_of attrs) (or_else (label_of attrs) (feed_url_of attrs))
        (env.strip (opml_attribute attrs "htmlurl"))

  -- the checks of a category's name
  unfoldable pub category_named : String → Elements → Result ImportError String
  category_named name children =
      if not (truthy (env.strip name)) || not (has_children children)
      then refuse "Category outlines need a name and at least one child outline."
      else if env.clean_category name (or_else (env.slugify name) "category")
      then ok name
      else refuse "An outline contains invalid category fields."

  unfoldable pub child_category : List (String × String) → Elements → Result ImportError String
  child_category attrs children = category_named (label_of attrs) children

  -- one outline; `visit` goes into a category
  abbrev pub visit_outline :
      List (String × String)
      → Elements
      → String
      → (String → Walk → Result ImportError Walk)
      → Walk
      → Result ImportError Walk
  visit_outline attrs children category_name visit walk =
      if truthy (feed_url_of attrs)
      then if has_children children
        then refuse "Feed outlines cannot contain child outlines."
        else (validated_opml_feed attrs category_name >>= λ parsed. add_feed parsed walk)
      else (child_category attrs children >>= λ name. visit name walk)

  abbrev pub within_depth : ℕ → (Walk → Result ImportError Walk) → Walk → Result ImportError Walk
  within_depth depth loop walk =
      if ltb opml_max_depth depth then refuse "The OPML outline nesting is too deep." else loop walk

  -- the loop of `visit` over the children, and its body
  unfoldable mutual
    pub visit_children : Elements → String → ℕ → Walk → Result ImportError Walk
    visit_children nil category_name depth walk = ok walk
    visit_children (cons child rest) category_name depth walk =
        visit_child child category_name depth walk >>= visit_children rest category_name depth

    pub visit_child : Element → String → ℕ → Walk → Result ImportError Walk
    visit_child (element tag attrs children) category_name depth walk =
        let visit =
          λ (name : String). within_depth (suc depth) (visit_children children name (suc depth)) in
        if str_eq (xml_local_name tag) "outline"
        then (count_outline walk >>= visit_outline attrs children category_name visit)
        else refuse "The OPML body may contain only outlines."

  unfoldable pub bodies : Elements → List Elements
  bodies nil = []
  bodies (cons (element tag attrs children) rest) =
      if str_eq (xml_local_name tag) "body" then children ∷ bodies rest else bodies rest

  abbrev pub visit_body : List Elements → Result ImportError Walk
  visit_body (body ∷ []) =
      within_depth 1 (visit_children body "" 1)
        (record { feeds = []; duplicate_count = 0; outline_count = 0 })
  visit_body others = refuse "The OPML document must contain exactly one body."

  abbrev pub parse_root : Option Element → Result ImportError Walk
  parse_root none = refuse "The OPML XML is malformed."
  parse_root (some (element tag attrs children)) =
      if str_eq (xml_local_name tag) "opml"
      then visit_body (bodies children)
      else refuse "The document root must be an OPML element."

  abbrev pub parse_source : Option String → Result ImportError Walk
  parse_source none = refuse "The OPML file must use UTF-8 encoding."
  parse_source (some source) =
      if env.has_declaration source
      then refuse "DTD and entity declarations are not allowed."
      else parse_root (env.from_string source)

  unfoldable pub parse_opml : List ℕ → Result ImportError (List OpmlFeed × ℕ)
  parse_opml content =
      if (length content == 0) || ltb opml_max_bytes (length content)
      then refuse "The OPML file is empty or exceeds the upload limit."
      else (parse_source (env.decode content) >>= λ walk. ok (walk.feeds, walk.duplicate_count))
