-- ===== src/Opml/Export.antt =====
-- `export_opml` of `feeds/services.py`: the document of the active feeds. The text of the head's title
-- is left out, as the elements of the model have no text.
pub mod Listed
pub mod Nodes
pub mod Placed
pub mod Read
pub mod Roundtrip
use daily_firehose.Common.{
  ℕ, ◌+◌, String, Bool, true, false, not, ◌&&◌, ◌||◌, Option, none, some, List, [], ◌∷◌, ◌++◌, map,
  filter, any, ◌==◌, str_eq, truthy, sort_by, if◌then◌else◌,
}
use daily_firehose.Refresh.Feed.{Feed}
use daily_firehose.Opml.{Element, element, Elements, nil, cons}

-- What the body holds: the outline of a feed, or that of a category with the feeds below it, of which
-- there is always one.
pub data Node : Type 0 where
  feed_outline : Feed → Node
  category_outline : ℕ → Feed → List Feed → Node

-- The categories' rows by their keys, and the order of the database on texts.
pub record Catalog : Type 0 where
  pub name : ℕ → String
  pub slug : ℕ → String
  pub less : String → String → Bool

-- Below the category's outline, or below a new one at the end.
unfoldable pub placed_in : ℕ → Feed → List Node → List Node
placed_in id f [] = category_outline id f [] ∷ []
placed_in id f (feed_outline g ∷ rest) = let later = placed_in id f rest in feed_outline g ∷ later
placed_in id f (category_outline other g fs ∷ rest) =
    let later = placed_in id f rest in
    if other == id
    then category_outline other g (fs ++ f ∷ []) ∷ rest
    else category_outline other g fs ∷ later

abbrev pub placed : Feed → Option ℕ → List Node → List Node
placed f none nodes = nodes ++ feed_outline f ∷ []
placed f (some id) nodes = placed_in id f nodes

-- the loop over the feeds
unfoldable pub place_all : List Feed → List Node → List Node
place_all [] nodes = nodes
place_all (f ∷ rest) nodes = place_all rest (placed f f.category nodes)

-- the loop's `attrs`
unfoldable pub feed_attributes : Feed → List (String × String)
feed_attributes f =
    ("text", f.title)
    ∷ ("title", f.title)
    ∷ ("type", "rss")
    ∷ ("xmlUrl", f.feed_url)
    ∷ (if truthy f.site_url then ("htmlUrl", f.site_url) ∷ [] else [])

unfoldable pub feed_elements : List Feed → Elements
feed_elements [] = nil
feed_elements (f ∷ rest) = cons (element "outline" (feed_attributes f) nil) (feed_elements rest)

module _ (catalog : Catalog) where
  -- texts, then what decides between equal ones
  abbrev pub before : String → String → Bool → Bool
  before a b next = catalog.less a b || (str_eq a b && next)

  abbrev pub before_category : Option ℕ → Option ℕ → Bool → Bool
  before_category none none next = next
  before_category none (some c) next = false
  before_category (some c) none next = true
  before_category (some c) (some d) next =
      before (catalog.name c) (catalog.name d) (before (catalog.slug c) (catalog.slug d) next)

  -- `order_by("category__name", "category__slug", "title", "feed_url")`; NULL is last
  unfoldable pub export_order : Feed → Feed → Bool
  export_order f g =
      before_category f.category g.category
        (before f.title g.title (before f.feed_url g.feed_url false))

  abbrev pub node_element : Node → Element
  node_element (feed_outline f) = element "outline" (feed_attributes f) nil
  node_element (category_outline id f fs) =
      element "outline" (("text", catalog.name id) ∷ ("title", catalog.name id) ∷ [])
        (feed_elements (f ∷ fs))

  unfoldable pub node_elements : List Node → Elements
  node_elements [] = nil
  node_elements (n ∷ rest) = cons (node_element n) (node_elements rest)

  unfoldable pub exported : List Feed → List Node
  exported feeds =
      place_all (sort_by (λ f g. not (export_order g f)) (filter (λ f. f.is_active) feeds)) []

  -- the document, which `ElementTree.tostring` writes
  unfoldable pub export_opml : List Feed → Element
  export_opml feeds = element "opml" (("version", "2.0") ∷ []) (
      cons (element "head" [] (cons (element "title" [] nil) nil))
        (cons (element "body" [] (node_elements (exported feeds))) nil))
