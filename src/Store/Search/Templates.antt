-- ===== src/Store/Search/Templates.antt =====
-- The templates that the WHERE clauses of internal/store/sqlite.go are put together from.
pub mod Clauses
pub mod Marks
use litemlflow.Prelude.{ℕ, suc, ◌+◌, ◌≡◌, List, [], ◌∷◌, ◌++◌, map, Text, codes, length}
use litemlflow.Store.Search.Texts.{join_text}
use litemlflow.Store.Search.Filter.{Clause, marks, latest_metric, child_of}

pub data Column : Type 0 where
  status start_time end_time run_name run_id : Column

pub data Operator : Type 0 where
  at_least at_most differs equals above below like : Operator

pub data Child : Type 0 where
  params tags : Child

-- One condition of a WHERE clause, without its values.
pub data Shape : Type 0 where
  comparison : Column → Operator → Shape
  child_comparison : Child → Operator → Shape
  metric_comparison : Operator → Shape
  membership : Column → ℕ → Shape
  child_membership : Child → ℕ → Shape
  metric_range : Shape
  time_range : Column → Shape

abbrev pub column_text : Column → Text
column_text status = codes "status"
column_text start_time = codes "start_time"
column_text end_time = codes "end_time"
column_text run_name = codes "name"
column_text run_id = codes "id"

abbrev pub operator_text : Operator → Text
operator_text at_least = codes ">="
operator_text at_most = codes "<="
operator_text differs = codes "!="
operator_text equals = codes "="
operator_text above = codes ">"
operator_text below = codes "<"
operator_text like = codes "LIKE"

abbrev pub child_text : Child → Text
child_text params = codes "params"
child_text tags = codes "tags"

-- A test of one value, and a list of `n` of them.
abbrev pub compares : Operator → Text
compares op = operator_text op ++ codes " ?"

abbrev pub lists : ℕ → Text
lists n = codes "IN (" ++ (marks n ++ codes ")")

abbrev pub render : Shape → Text
render (comparison col op) = column_text col ++ (codes " " ++ compares op)
render (child_comparison table op) = child_of (child_text table) (compares op)
render (metric_comparison op) = latest_metric (compares op)
render (membership col n) = column_text col ++ (codes " " ++ lists n)
render (child_membership table n) = child_of (child_text table) (lists n)
render metric_range = latest_metric (codes "BETWEEN ? AND ?")
render (time_range col) = column_text col ++ codes " BETWEEN ? AND ?"

-- How many values a condition has.
abbrev pub slots : Shape → ℕ
slots (comparison col op) = 1
slots (child_comparison table op) = 2
slots (metric_comparison op) = 2
slots (membership col n) = n
slots (child_membership table n) = suc n
slots metric_range = 3
slots (time_range col) = 2

abbrev pub Fits : {V : Type 0} → Clause V → Type 0
Fits c = (shape : Shape) × (c.sql ≡ render shape) × (length c.args ≡ slots shape)

-- The conditions of a whole filter.
abbrev pub render_all : List Shape → Text
render_all [] = codes "1=1"
render_all (shape ∷ shapes) = join_text (codes " AND ") (map render (shape ∷ shapes))

abbrev pub all_slots : List Shape → ℕ
all_slots [] = 0
all_slots (shape ∷ shapes) = slots shape + all_slots shapes
