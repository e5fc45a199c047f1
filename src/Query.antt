-- ===== src/Query.antt =====
-- query/filter.go: filters over a record's data, and the comparison of two values that filters, sorts
-- and indexes share. JSON values, float64, the formatting of fmt and the packages strings and regexp are
-- the parameter `Values`.
pub mod Comparing
use Prim.Native.Nat.{Ordering}
use Prim.Native.String.{compare as compare_strings}
use scriva.Prelude.{
  String, Bool, true, false, not, Option, none, some, Dict, lookup, ◌==◌, string_eq, if◌then◌else◌,
}

-- `as_number` is the type switch of asNumber, `less` and `same` are `<` and `==` on float64, `sprint` is
-- fmt.Sprintf("%v"), `decode` json.Unmarshal; `matches` compiles a pattern and tries it, `none` when the
-- pattern does not compile.
pub record Values (V : Type 0) : Type 1 where
  pub F : Type 0
  pub as_number : V → Option F
  pub less : F → F → Bool
  pub same : F → F → Bool
  pub sprint : V → String
  pub string_value : String → V
  pub decode : String → Option V
  pub contains : String → String → Bool
  pub matches : String → String → Option Bool

pub data FilterOp : Type 0 where
  op_eq op_neq op_gt op_gte op_lt op_lte op_contains op_regex : FilterOp
  -- any further string
  op_other : String → FilterOp

-- the filter nodes; a list of filters is a type of its own
mutual
  pub data Filter : Type 0 where
    field_filter : String → FilterOp → String → Filter
    and_filter or_filter : Filters → Filter
    match_all : Filter

  pub data Filters : Type 0 where
    no_filters : Filters
    filters : Filter → Filters → Filters

abbrev pub is_less : Ordering → Bool
is_less Ordering.lt = true
is_less Ordering.eq = false
is_less Ordering.gt = false

abbrev pub is_equal : Ordering → Bool
is_equal Ordering.lt = false
is_equal Ordering.eq = true
is_equal Ordering.gt = false

abbrev pub is_greater : Ordering → Bool
is_greater Ordering.lt = false
is_greater Ordering.eq = false
is_greater Ordering.gt = true

module _ {V : Type 0} (Q : Values V) where
  open Q use {F, as_number, less, same, sprint, string_value, decode, contains, matches}

  abbrev pub equal_as : Option F → Option F → V → V → Bool
  equal_as (some af) (some bf) a b = same af bf
  equal_as none bf a b = sprint a == sprint b
  equal_as (some af) none a b = sprint a == sprint b

  unfoldable pub equal : V → V → Bool
  equal a b = equal_as (as_number a) (as_number b) a b

  -- -1, 0 and 1 are `lt`, `eq` and `gt`
  abbrev pub compare_numbers : F → F → Ordering
  compare_numbers af bf =
      if less af bf then Ordering.lt else if less bf af then Ordering.gt else Ordering.eq

  abbrev pub compare_as : Option F → Option F → V → V → Ordering
  compare_as (some af) (some bf) a b = compare_numbers af bf
  compare_as none bf a b = compare_strings (sprint a) (sprint b)
  compare_as (some af) none a b = compare_strings (sprint a) (sprint b)

  unfoldable pub compare : V → V → Ordering
  compare a b = compare_as (as_number a) (as_number b) a b

  -- `treat as plain string if not valid JSON`
  abbrev pub plain_or : String → Option V → V
  plain_or text none = string_value text
  plain_or text (some v) = v

  abbrev pub or_no_match : Option Bool → Bool
  or_no_match none = false
  or_no_match (some b) = b

  -- `switch f.Op`
  abbrev pub match_op : FilterOp → V → V → Bool
  match_op op_eq v cmp = equal v cmp
  match_op op_neq v cmp = not (equal v cmp)
  match_op op_gt v cmp = is_greater (compare v cmp)
  match_op op_gte v cmp = not (is_less (compare v cmp))
  match_op op_lt v cmp = is_less (compare v cmp)
  match_op op_lte v cmp = not (is_greater (compare v cmp))
  match_op op_contains v cmp = contains (sprint v) (sprint cmp)
  match_op op_regex v cmp = or_no_match (matches (sprint cmp) (sprint v))
  match_op (op_other s) v cmp = false

  abbrev pub match_found : Option V → FilterOp → String → Bool
  match_found none op text = false
  match_found (some v) op text = match_op op v (plain_or text (decode text))

  unfoldable mutual
    unfolding lookup

    -- Match
    pub match_filter : Filter → Dict String V → Bool
    match_filter (field_filter field op text) r = match_found (lookup field r) op text
    match_filter (and_filter fs) r = match_every fs r
    match_filter (or_filter fs) r = match_some fs r
    match_filter match_all r = true

    pub match_every : Filters → Dict String V → Bool
    match_every no_filters r = true
    match_every (filters f fs) r =
        let rest = match_every fs r in if match_filter f r then rest else false

    pub match_some : Filters → Dict String V → Bool
    match_some no_filters r = false
    match_some (filters f fs) r =
        let rest = match_some fs r in if match_filter f r then true else rest
