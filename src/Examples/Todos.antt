-- ===== src/Examples/Todos.antt =====
-- To-dos at concrete inputs.
use rulefolio_server.Prelude.{false, none, some, ◌≡◌, All, ◌≢◌, ◌⊎◌, ◌==◌, scalar, select, delete}
use rulefolio_server.Notifications.Models.{NotificationTodo, TodoStatus, issue_opened, issue}
use rulefolio_server.Notifications.Todos.{
  NewTodo, targets, cancel_todos_for_target, complete_todos_for_target, end_todo_by_source,
  has_source,
}
use rulefolio_server.Notifications.Stopping.{IsSilent}
use rulefolio_server.Notifications.Closing.{end_target, end_source}
use rulefolio_server.Examples.Fixtures.{db}

end_target_example :
    let ended = select (targets issue 6 none) db.todos in
    let cancelled = cancel_todos_for_target 50 issue 6 none db in
    let completed = complete_todos_for_target 50 issue 6 none db in
    All (λ t. targets issue 6 none t ≡ false) cancelled.todos
    × All (λ t. targets issue 6 none t ≡ false) completed.todos
    × All (λ t. IsSilent t.id cancelled) ended
    × All (λ t. IsSilent t.id completed) ended
end_target_example = end_target 50 issue 6 none db

end_source_example :
    let db' = end_todo_by_source TodoStatus.completed 50 1 issue_opened "issue:6" db in
    let found = scalar (has_source 1 issue_opened "issue:6") db.todos in
    ((t : NotificationTodo) × (found ≡ some t)
      × (t.status ≡ TodoStatus.open_todo)
      × IsSilent t.id db'
      × All
          (λ u. u.id ≡ t.id → (u.status ≡ TodoStatus.completed) × (u.resolved_at ≡ some 50))
          db'.todos
      × (delete (λ u. u.id == t.id) db'.todos ≡ delete (λ u. u.id == t.id) db.todos))
    ⊎ (((found ≡ none)
          ⊎ ((t : NotificationTodo) × (found ≡ some t) × (t.status ≢ TodoStatus.open_todo)))
        × (db' ≡ db))
end_source_example = end_source TodoStatus.completed 50 1 issue_opened "issue:6" db

abbrev new_todo : NewTodo
new_todo = record {
  recipient_account_id = 2;
  workspace_id = 5;
  work_id = some 6;
  kind = issue_opened;
  target_kind = issue;
  target_id = 7;
  source_key = "issue:7";
  summary = "summary";
  context_label = "label";
}
