-- ===== src/Notifications/Requests.antt =====
-- The to-do requests of src/app/notifications/service.py that commit: `complete_todo` and
-- `retry_failed_mail`.
use rulefolio_server.Prelude.{
  ℕ, String, Bool, false, true, not, ◌&&◌, Option, none, some, ◌==◌, str_eq, holds, is_none,
  if◌then◌else◌, scalar, update,
}
use rulefolio_server.Notifications.Models.{
  MailOutbox, is_failed, TodoStatus, is_open, todo_cancelled, NotificationTodo,
}
use rulefolio_server.Notifications.Outbox.{latest_mail, enqueue_business_mail}
use rulefolio_server.Notifications.Todos.{
  NotificationTodoData, todo_data, Owners, business_todo_eligible, resolved, close_todo,
}
use rulefolio_server.Workspaces.Models.{Workspace}
use rulefolio_server.Workspaces.Access.{ensure_workspace_writable}
use rulefolio_server.Database.{
  Db, Exec, or_raise, refuse_if, gets, modify, commit, ◌>>=◌, ◌>>◌, todo_unavailable, todo_not_open,
  mail_retry_used, mail_retry_unavailable,
}

unfoldable pub own_todo : (recipient_id todo_id : ℕ) → Db → Option NotificationTodo
own_todo recipient_id todo_id db =
    scalar (λ t. t.id == todo_id && t.recipient_account_id == recipient_id) db.todos

-- `column == key` on an optional text
abbrev pub holds_key : Option String → String → Bool
holds_key none key = false
holds_key (some k) key = str_eq k key

unfoldable pub existing_retry : (todo_id : ℕ) → String → Db → Option MailOutbox
existing_retry todo_id key db =
    scalar (λ o. holds o.todo_id todo_id && holds_key o.retry_operation_key key) db.outbox

-- the checks of the failed mail, with the three frozen parts that they establish
unfoldable pub retriable_parts : Option MailOutbox → Option (MailOutbox × String × String × String)
retriable_parts none = none
retriable_parts (some o) = elim o.frozen_subject [
  | none ↦ none
  | some subject ↦ elim o.frozen_body [
    | none ↦ none
    | some body ↦ elim o.business_scope [
      | none ↦ none
      | some scope ↦
          if is_failed o.status && is_none o.credential_id
          then some (o, subject, body, scope)
          else none
    ]
  ]
]

abbrev pub spent : NotificationTodo → NotificationTodo
spent t = record t { retry_used = true }

module _ (visible : Workspace → Bool) where
  unfoldable pub complete_todo : (now recipient_id todo_id : ℕ) → Exec NotificationTodoData
  unfolding own_todo ensure_workspace_writable close_todo
  complete_todo now recipient_id todo_id = do
    todo ← or_raise (← gets (own_todo recipient_id todo_id)) todo_unavailable
    refuse_if (todo_cancelled todo.status) todo_not_open
    ensure_workspace_writable visible todo.workspace_id
    modify
        (λ db. if is_open todo.status then close_todo now TodoStatus.completed todo.id db else db)
    commit
    gets (λ db.
        todo_data db (if is_open todo.status then resolved TodoStatus.completed now todo else todo))

  -- the part of `retry_failed_mail` that follows the lookup of an earlier retry
  unfoldable pub retry_anew :
      Owners → (outbox_id now : ℕ) → NotificationTodo → String → Exec NotificationTodoData
  unfolding ensure_workspace_writable retriable_parts
  retry_anew owners outbox_id now todo key = do
    refuse_if (not (is_open todo.status)) todo_not_open
    ensure_workspace_writable visible todo.workspace_id
    refuse_if todo.retry_used mail_retry_used
    eligible ← gets (λ db. business_todo_eligible owners db todo)
    refuse_if (not eligible) mail_retry_unavailable
    latest ← gets (latest_mail todo.id)
    (failed, subject, body, scope) ← or_raise (retriable_parts latest) mail_retry_unavailable
    modify (λ db. record db { todos = update (λ t. t.id == todo.id) spent db.todos })
    modify (
        enqueue_business_mail outbox_id now todo.recipient_account_id failed.purpose subject body
          scope (some todo.id) (some key))
    commit
    gets (λ db. todo_data db (spent todo))

  unfoldable pub retry_failed_mail :
      Owners → (outbox_id now recipient_id todo_id : ℕ) → String → Exec NotificationTodoData
  unfolding own_todo existing_retry retry_anew
  retry_failed_mail owners outbox_id now recipient_id todo_id key = do
    todo ← or_raise (← gets (own_todo recipient_id todo_id)) todo_unavailable
    earlier ← gets (existing_retry todo.id key)
    if is_none earlier
        then retry_anew owners outbox_id now todo key
        else (do commit; gets (λ db. todo_data db todo))
