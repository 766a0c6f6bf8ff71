-- ===== src/Notifications/Scope.antt =====
-- Which tables the to-do and mail functions write: their own two.
use rulefolio_server.Prelude.{
  ℕ, String, List, [], ◌∷◌, ◌≡◌, refl, Option-cases, Bool-cases, inl, inr, scalar, select, ◌==◌,
  ◌&&◌,
}
use rulefolio_server.Notifications.Models.{
  MailOutbox, MailStatus, NotificationTodo, TodoStatus, TodoKind, is_open,
}
use rulefolio_server.Notifications.Outbox.{stop_todo_mail, clear_outbox_envelopes}
use rulefolio_server.Notifications.Todos.{
  unlink_todo, delete_each, delete_work_access_todos, close_todo, close_each,
  cancel_workspace_todos, end_todo_by_source, has_source, reveals_work,
}
use rulefolio_server.Database.{Db}

-- the same database with other mail and other to-dos
abbrev pub Renotified : Db → Db → Type 0
Renotified db db' =
    (outbox : List MailOutbox) × (todos : List NotificationTodo) × (db'
      ≡ record db { outbox = outbox; todos = todos })

pub delete_each-Renotified :
    (ts : List NotificationTodo) (db : Db) → Renotified db (delete_each ts db)
unfolding delete_each unlink_todo stop_todo_mail
delete_each-Renotified [] db = (db.outbox, db.todos, refl)
delete_each-Renotified (t ∷ ts) db = delete_each-Renotified ts _

pub delete_work_access_todos-Renotified :
    (recipient_id work_id : ℕ) (db : Db)
    → Renotified db (delete_work_access_todos recipient_id work_id db)
unfolding delete_work_access_todos
delete_work_access_todos-Renotified recipient_id work_id db =
    delete_each-Renotified (select (reveals_work recipient_id work_id) db.todos) db

pub close_each-Renotified :
    (now : ℕ) (status : TodoStatus) (ts : List NotificationTodo) (db : Db)
    → Renotified db (close_each now status ts db)
unfolding close_each close_todo stop_todo_mail
close_each-Renotified now status [] db = (db.outbox, db.todos, refl)
close_each-Renotified now status (t ∷ ts) db = close_each-Renotified now status ts _

pub cancel_workspace_todos-Renotified :
    (now workspace_id : ℕ) (db : Db) → Renotified db (cancel_workspace_todos now workspace_id db)
unfolding cancel_workspace_todos
cancel_workspace_todos-Renotified now workspace_id db =
    close_each-Renotified now TodoStatus.cancelled
      (select (λ t. t.workspace_id == workspace_id && is_open t.status) db.todos) db

pub end_todo_by_source-Renotified :
    (status : TodoStatus) (now recipient_id : ℕ) (kind : TodoKind) (key : String) (db : Db)
    → Renotified db (end_todo_by_source status now recipient_id kind key db)
unfolding end_todo_by_source close_todo stop_todo_mail
end_todo_by_source-Renotified status now recipient_id kind key db =
    elim (Option-cases (scalar (has_source recipient_id kind key) db.todos)) [
      | inl missing ↦ rw (missing, end_todo_by_source) (db.outbox, db.todos, refl)
      | inr (t, found) ↦ elim (Bool-cases (is_open t.status)) [
        | inl o ↦ rw (found, end_todo_by_source) (rw o (_, _, refl))
        | inr c ↦ rw (found, end_todo_by_source) (rw c (db.outbox, db.todos, refl))
      ]
    ]

pub clear_outbox_envelopes-Renotified :
    (ids : List ℕ) (status : MailStatus) (db : Db)
    → Renotified db (clear_outbox_envelopes ids status db)
unfolding clear_outbox_envelopes
clear_outbox_envelopes-Renotified [] status db = (db.outbox, db.todos, refl)
clear_outbox_envelopes-Renotified (i ∷ ids) status db = (_, _, refl)
