-- ===== src/Replica.antt =====
-- src/wikipeople/replica.py: the articles of a wiki by falling size, and where a walk over them
-- stopped.

pub mod Cursor
pub mod Walk
pub mod Complete
use wikifame.Base.Int.{ℤ}
use wikifame.Base.{
  length, ℕ, Bool, true, not, ◌&&◌, ◌||◌, Option, none, some, List, [], ◌∷◌, ◌++◌, map, ltb, leb,
  ◌==◌, if◌then◌else◌, take, filter, Text, codes, text_eq, sort_by, decimal, partition,
}
use wikifame.Errors.{unexpected, Result, ok, err}
use wikifame.Policy.{Unicode, is_digits, int_of}
use wikifame.Upstream.{is_namespace}

-- A row of the replica's table `page`: `page_latest` is the revision, `page_len` the size.
pub record PageRow : Type 0 where
  pub page_id : ℕ
  pub latest : ℕ
  pub len : ℕ
  pub namespace : ℤ
  pub is_redirect : Bool

pub record ReplicaPage : Type 0 where
  pub page_id : ℕ
  pub revision_id : ℕ
  pub length : ℕ

pub record LengthCursor : Type 0 where
  pub length : ℕ
  pub page_id : ℕ

unfoldable pub encode : LengthCursor → Text
unfolding decimal
encode cursor = decimal cursor.length ++ b':' ∷ decimal cursor.page_id

-- `int(text)`; some texts for which `isdigit` holds are refused.
abbrev pub number : Unicode → Text → Result ℕ
number u text = elim (int_of u text) [
  | none ↦ err (unexpected (codes "invalid literal for int()"))
  | some n ↦ ok n
]

abbrev pub cursor_of : ℕ → ℕ → LengthCursor
cursor_of length page_id = record { length = length; page_id = page_id }

-- The two texts around the first colon.
abbrev pub read_cursor : Unicode → Text → Text → Result (Option LengthCursor)
read_cursor u length page_id =
    if not (is_digits u length) || not (is_digits u page_id)
    then ok none
    else elim (number u length) [
      | err e ↦ err e
      | ok n ↦ elim (number u page_id) [ err e ↦ err e | ok id ↦ ok (some (cursor_of n id)) ]
    ]

unfoldable pub decode : Unicode → Option Text → Result (Option LengthCursor)
unfolding partition is_digits int_of
decode u none = ok none
decode u (some []) = ok none
decode u (some (c ∷ raw)) = elim (partition b':' (c ∷ raw)) [
  | none ↦ ok none
  | some (length, page_id) ↦ read_cursor u length page_id
]

pub record ReplicaClient : Type 0 where
  pub user : Text
  pub password : Text
  -- The table `page` of a wiki's replica.
  pub page : Text → List PageRow

unfoldable pub available : ReplicaClient → Bool
available replica = not (text_eq replica.user []) && not (text_eq replica.password [])

-- `page_namespace = 0 AND page_is_redirect = 0`
unfoldable pub is_article : PageRow → Bool
unfolding is_namespace
is_article row = is_namespace 0 row.namespace && not row.is_redirect

-- `(page_len, page_id) < (:length, :page_id)`
unfoldable pub is_behind : Option LengthCursor → PageRow → Bool
is_behind none row = true
is_behind (some cursor) row =
    ltb row.len cursor.length || (row.len == cursor.length && ltb row.page_id cursor.page_id)

-- `ORDER BY page_len DESC, page_id DESC`
unfoldable pub is_before : PageRow → PageRow → Bool
is_before a b = ltb b.len a.len || (a.len == b.len && leb b.page_id a.page_id)

-- The rows of the statement without its `LIMIT`.
unfoldable pub rows_behind : List PageRow → Option LengthCursor → List PageRow
unfolding sort_by filter is_article is_behind is_before
rows_behind table cursor =
    sort_by is_before (filter (λ r. is_article r && is_behind cursor r) table)

abbrev pub read_row : PageRow → ReplicaPage
read_row row = record { page_id = row.page_id; revision_id = row.latest; length = row.len }

-- `pages[-1]`
unfoldable pub last : List ReplicaPage → Option ReplicaPage
last [] = none
last (p ∷ pages) = elim (last pages) [ none ↦ some p | some q ↦ some q ]

-- The pages of one answer, and the cursor behind them unless the answer came back short.
abbrev pub batch : ℕ → List ReplicaPage → Result (List ReplicaPage × Option LengthCursor)
batch limit pages = if ltb (length pages) limit then ok (pages, none) else elim (last pages) [
  | none ↦ err (unexpected (codes "list index out of range"))
  | some p ↦ ok (pages, some (cursor_of p.length p.page_id))
]

unfoldable pub pages_by_descending_length :
    ReplicaClient → Text → Option LengthCursor → ℕ → Result (List ReplicaPage × Option LengthCursor)
unfolding rows_behind last
pages_by_descending_length replica wiki cursor limit =
    batch limit (map read_row (take limit (rows_behind (replica.page wiki) cursor)))
