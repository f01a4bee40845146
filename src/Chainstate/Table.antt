-- ===== src/Chainstate/Table.antt =====
-- The table `blocks` of src/chainstate.cpp and the SQL statements on it. The order of the rows stands
-- for the order in which SQLite stores them, on which no result depends.
use xayax.Prelude.{
  ℕ, String, Bool, true, false, ◌&&◌, ◌||◌, not, List, [], ◌∷◌, Option, none, some, ltb, ◌==◌,
  if◌then◌else◌, select, i64_bound,
}
use xayax.Prelude.Texts.{same}

pub record Row : Type 0 where
  pub hash : String
  pub parent : String
  pub height : ℕ
  pub branch : ℕ
  pub blob : String

-- WHERE `hash` = ?1
abbrev pub has_hash : String → Row → Bool
has_hash h r = same r.hash h

-- WHERE `branch` = ?1
abbrev pub on_branch : ℕ → Row → Bool
on_branch b r = r.branch == b

-- ORDER BY `height` DESC
unfoldable pub insert_desc : Row → List Row → List Row
insert_desc r [] = r ∷ []
insert_desc r (q ∷ qs) =
    let rest = insert_desc r qs in if ltb r.height q.height then q ∷ rest else r ∷ q ∷ qs

unfoldable pub order_desc : List Row → List Row
unfolding insert_desc
order_desc [] = []
order_desc (r ∷ rs) = insert_desc r (order_desc rs)

-- ORDER BY `height` DESC LIMIT 1
unfoldable pub highest : List Row → Option Row
highest [] = none
highest (r ∷ rs) = elim (highest rs) [
  | none ↦ some r
  | some q ↦ some (if ltb r.height q.height then q else r)
]

-- ORDER BY `height` ASC LIMIT 1
unfoldable pub lowest : List Row → Option Row
lowest [] = none
lowest (r ∷ rs) = elim (lowest rs) [
  | none ↦ some r
  | some q ↦ some (if ltb q.height r.height then q else r)
]

-- SELECT `branch` ... ORDER BY `branch` DESC LIMIT 1
unfoldable pub highest_branch : List Row → Option ℕ
highest_branch [] = none
highest_branch (r ∷ rs) = elim (highest_branch rs) [
  | none ↦ some r.branch
  | some b ↦ some (if ltb r.branch b then b else r.branch)
]

-- UPDATE `blocks` SET `branch` = ?1 WHERE ...
unfoldable pub set_branch : ℕ → (Row → Bool) → List Row → List Row
set_branch b p [] = []
set_branch b p (r ∷ rs) = (if p r then record r { branch = b } else r) ∷ set_branch b p rs

-- DELETE FROM `blocks` WHERE ...
abbrev pub delete : (Row → Bool) → List Row → List Row
delete p = select (λ r. not (p r))

-- PRIMARY KEY (`hash`) and UNIQUE (`branch`, `height`): no two rows clash.
abbrev pub clashes : Row → Row → Bool
clashes q r = same q.hash r.hash || (q.branch == r.branch && q.height == r.height)

unfoldable pub clashes_any : Row → List Row → Bool
clashes_any r [] = false
clashes_any r (q ∷ qs) = clashes q r || clashes_any r qs

unfoldable pub constraints_hold : List Row → Bool
unfolding clashes_any
constraints_hold [] = true
constraints_hold (r ∷ rs) = not (clashes_any r rs) && constraints_hold rs

-- A query that must not have a second row: CHECK (!stmt.Step ()).
abbrev pub only : List Row → Option (Option Row)
only [] = some none
only (r ∷ []) = some (some r)
only (r ∷ q ∷ qs) = none

-- A statement that violates a constraint of the table makes Database::Statement::Step abort.
unfoldable pub constrained : List Row → Option (List Row)
constrained rs = if constraints_hold rs then some rs else none

-- Statement::Bind<uint64_t>: CHECK_LE (val, std::numeric_limits<int64_t>::max ())
abbrev pub bindable : ℕ → Bool
bindable v = ltb v i64_bound
