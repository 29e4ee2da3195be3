-- ===== src/Stac/Search.antt =====
-- `search` of stac.rs. A time is its number of nanoseconds, a coordinate the bit pattern of its `f64`.
pub mod Intervals
use feather_mesh.Prelude.{
  ℕ, Bool, true, false, ◌&&◌, ◌||◌, not, Option, none, some, List, filter, leb, ltb, if◌then◌else◌,
  Text, text_eq, codes,
}
use feather_mesh.Std.Str.{split_once}
use feather_mesh.Std.Float.{f64_le}

pub record Bbox : Type 0 where
  pub left : ℕ
  pub bottom : ℕ
  pub right : ℕ
  pub top : ℕ

-- `StacItem`; the JSON value stands in `V`.
pub record StacItem (V : Type 0) : Type 0 where
  pub id : Text
  pub collection_id : Text
  pub namespace : Text
  pub product_id : Text
  pub version : Text
  pub manifest_revision : ℕ
  pub bbox : Bbox
  pub start_datetime : ℕ
  pub end_datetime : ℕ
  pub value : V

unfoldable pub intersects : Bbox → Bbox → Bool
unfolding f64_le
intersects b q =
    f64_le b.left q.right && f64_le q.left b.right && f64_le b.bottom q.top && f64_le q.bottom b.top

abbrev pub dots : Text
dots = codes ".."

-- One end of the queried interval: `..` is open.
unfoldable pub bound : (Text → Option ℕ) → Text → Option ℕ
bound parse s = if text_eq s dots then none else parse s

abbrev pub is_none : Option ℕ → Bool
is_none none = true
is_none (some t) = false

abbrev pub none_or : (ℕ → Bool) → Option ℕ → Bool
none_or p none = true
none_or p (some t) = p t

abbrev pub is_reversed : Option ℕ → Option ℕ → Bool
is_reversed (some lower) (some upper) = ltb upper lower
is_reversed (some lower) none = false
is_reversed none o = false

unfoldable pub matches_interval : (Text → Option ℕ) → ℕ → ℕ → Text → Text → Bool
unfolding bound
matches_interval parse start end query_start query_end =
    let lower = bound parse query_start in
    let upper = bound parse query_end in
    if not (text_eq query_start dots) && is_none lower
      || not (text_eq query_end dots) && is_none upper
      || is_reversed lower upper
    then false
    else none_or (λ l. leb l end) lower && none_or (λ u. leb start u) upper

unfoldable pub matches_datetime : (Text → Option ℕ) → ℕ → ℕ → Text → Bool
unfolding matches_interval
matches_datetime parse start end query = elim (split_once b'/' query) [
  | some (s, e) ↦ matches_interval parse start end s e
  | none ↦ elim (parse query) [ some instant ↦ leb start instant && leb instant end | none ↦ false ]
]

abbrev pub none_or_text : (Text → Bool) → Option Text → Bool
none_or_text p none = true
none_or_text p (some t) = p t

abbrev pub none_or_bbox : (Bbox → Bool) → Option Bbox → Bool
none_or_bbox p none = true
none_or_bbox p (some t) = p t

unfoldable pub is_match :
    {V : Type 0} → (Text → Option ℕ) → Option Text → Option Bbox → Option Text → StacItem V → Bool
unfolding intersects matches_datetime
is_match parse collection bbox datetime item =
    none_or_text (λ c. text_eq item.collection_id c) collection
    && none_or_bbox (λ q. intersects item.bbox q) bbox
    && none_or_text (λ q. matches_datetime parse item.start_datetime item.end_datetime q) datetime

unfoldable pub search :
    {V : Type 0}
    → (Text → Option ℕ)
    → List (StacItem V)
    → Option Text
    → Option Bbox
    → Option Text
    → List (StacItem V)
unfolding is_match
search parse items collection bbox datetime = filter (is_match parse collection bbox datetime) items
