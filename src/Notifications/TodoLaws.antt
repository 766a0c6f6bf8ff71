-- ===== src/Notifications/TodoLaws.antt =====
-- The to-dos of one source: created once, and their failed mail retried once.
use text.Mathlib.TextPositions.{eq_refl}
use rulefolio_server.Prelude.{
  ℕ, ◌≤◌, String, Bool, ◌≡◌, refl, true, false, some, arith, List, ◌∷◌, ◌++◌, eq_iff, All, All-map,
  All-append, ◌∙◌, scalar, scalar-none, rowcount, rowcount-zero, Option-cases, Bool-cases, inl, inr,
}
use rulefolio_server.Notifications.Models.{TodoKind, NotificationTodo}
use rulefolio_server.Notifications.Todos.{NewTodo, has_source, todo_row, create_todo}
use rulefolio_server.Database.{Db}

abbrev key_of : NewTodo → NotificationTodo → Bool
key_of n = has_source n.recipient_account_id n.kind n.source_key

row-has_source : (id now : ℕ) (n : NewTodo) → key_of n (todo_row id now n) ≡ true
unfolding has_source todo_row
row-has_source id now n = ground (arith, eq_refl n.source_key)

create_todo-existing :
    (id now : ℕ) (n : NewTodo) (rivals : List NotificationTodo) (db : Db) {t : NotificationTodo}
    → scalar (key_of n) db.todos ≡ some t
    → create_todo id now n rivals db ≡ ((t, false), db)
unfolding create_todo
create_todo-existing id now n rivals db found = rw (found, create_todo) refl

-- the unique constraint on recipient, kind and source
abbrev pub IsUnique : List NotificationTodo → Type 0
IsUnique todos =
    (recipient : ℕ) (kind : TodoKind) (key : String)
    → rowcount (has_source recipient kind key) todos ≤ 1

-- two keys of one row are the same key
key_unique :
    (r r' : ℕ) (k k' : TodoKind) (s s' : String) (t u : NotificationTodo)
    → has_source r k s t ≡ true
    → has_source r' k' s' t ≡ true
    → has_source r k s u ≡ has_source r' k' s' u
unfolding has_source
key_unique r r' k k' s s' t u h h' = ground (arith, eq_iff t.source_key s, eq_iff t.source_key s')

new_row-IsUnique :
    (t : NotificationTodo) (n : NewTodo) (rows : List NotificationTodo)
    → All (λ u. key_of n u ≡ false) rows
    → key_of n t ≡ true
    → IsUnique rows
    → IsUnique (t ∷ rows)
unfolding rowcount
new_row-IsUnique t n rows free mine unique r k s = elim (Bool-cases (has_source r k s t)) [
  | inl hit ↦ ground (
    arith,
    rowcount-zero (has_source r k s) rows (
        All-map (λ u. key_of n u ≡ false) (λ u. has_source r k s u ≡ false) rows
          (λ u e. key_unique r _ k _ s _ t u hit mine ∙ e) free),
  )
  | inr miss ↦ ground (arith, unique r k s)
]

-- Creating a to-do never breaks the unique constraint, if the rows that others insert keep it.
pub create_todo-IsUnique :
    (id now : ℕ) (n : NewTodo) (rivals : List NotificationTodo) (db : Db)
    → IsUnique db.todos
    → IsUnique (rivals ++ db.todos)
    → IsUnique (create_todo id now n rivals db).1.todos
create_todo-IsUnique id now n rivals db before joined =
    elim (Option-cases (scalar (key_of n) db.todos)) [
      | inr (old, found) ↦ rw (create_todo-existing id now n rivals db found) before
      | inl new ↦ elim (Option-cases (scalar (key_of n) rivals)) [
        | inr (rival, found) ↦
            unfold create_todo in rw (new, create_todo) (rw (found, create_todo) joined)
        | inl alone ↦
            unfold create_todo in
            rw (new, create_todo)
              (rw (alone, create_todo)
                (new_row-IsUnique (todo_row id now n) n (rivals ++ db.todos)
                  (All-append _ rivals db.todos (scalar-none (key_of n) rivals alone)
                    (scalar-none (key_of n) db.todos new))
                  (row-has_source id now n) joined))
      ]
    ]
