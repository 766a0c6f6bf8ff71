-- ===== src/Notifications/Todos.antt =====
-- The to-do functions of src/app/notifications/service.py.
use rulefolio_server.Prelude.{
  ℕ, String, Bool, true, false, not, ◌&&◌, Option, none, some, List, [], ◌∷◌, ◌++◌, ◌==◌, str_eq,
  holds, is_none, if◌then◌else◌, scalar, update, delete, select,
}
use rulefolio_server.Notifications.Models.{
  MailStatus, cancelled, is_failed, MailOutbox, TodoKind, TargetKind, kind_index, same_target,
  TodoStatus, open_todo, is_open, NotificationTodo, playtest_invitation,
  playtest_arrangement_updated, playtest_material_updated, playtest_cancelled, feedback_submitted,
  issue_opened, retest_arrangement_needed, retest_arranged,
}
use rulefolio_server.Notifications.Outbox.{latest_mail, mail_status, stop_todo_mail}
use rulefolio_server.Database.{Db}

pub record NotificationTodoData : Type 0 where
  pub todo : NotificationTodo
  pub mail : Option MailStatus
  pub last_attempt_at : Option ℕ
  pub can_retry_mail : Bool

-- `a or b` on two optional times, the second of which is read only if the first is missing
abbrev or_else : Option ℕ → Option ℕ → Option ℕ
or_else none b = b
or_else (some a) b = some a

last_attempt : Option MailOutbox → Option ℕ
last_attempt none = none
last_attempt (some o) = or_else o.smtp_started_at o.dispatch_started_at

retriable : NotificationTodo → Option MailOutbox → Bool
retriable todo none = false
retriable todo (some o) =
    is_open todo.status && not todo.retry_used && is_failed o.status && is_none o.credential_id

unfoldable pub todo_data : Db → NotificationTodo → NotificationTodoData
unfolding last_attempt retriable mail_status latest_mail
todo_data db todo =
    let o = latest_mail todo.id db in
    record {
      todo = todo;
      mail = mail_status o;
      last_attempt_at = last_attempt o;
      can_retry_mail = retriable todo o;
    }

-- `playtests_service.notification_todo_eligible` and that of the issues service
pub record Owners : Type 0 where
  pub playtests_eligible : Db → NotificationTodo → Bool
  pub issues_eligible : Db → NotificationTodo → Bool

abbrev pub is_playtest_kind : TodoKind → Bool
is_playtest_kind playtest_invitation = true
is_playtest_kind playtest_arrangement_updated = true
is_playtest_kind playtest_material_updated = true
is_playtest_kind playtest_cancelled = true
is_playtest_kind _ = false

unfoldable pub business_todo_eligible : Owners → Db → NotificationTodo → Bool
business_todo_eligible owners db todo =
    if is_none todo.work_id
    then true
    else if is_playtest_kind todo.kind
    then owners.playtests_eligible db todo
    else owners.issues_eligible db todo

-- the unique key of a to-do
unfoldable pub has_source : ℕ → TodoKind → String → NotificationTodo → Bool
has_source recipient_id kind source_key t =
    t.recipient_account_id == recipient_id
    && kind_index t.kind == kind_index kind
    && str_eq t.source_key source_key

pub record NewTodo : Type 0 where
  pub recipient_account_id : ℕ
  pub workspace_id : ℕ
  pub work_id : Option ℕ
  pub kind : TodoKind
  pub target_kind : TargetKind
  pub target_id : ℕ
  pub source_key : String
  pub summary : String
  pub context_label : String

unfoldable pub todo_row : ℕ → ℕ → NewTodo → NotificationTodo
todo_row id now n = record {
  id = id;
  recipient_account_id = n.recipient_account_id;
  workspace_id = n.workspace_id;
  work_id = n.work_id;
  kind = n.kind;
  target_kind = n.target_kind;
  target_id = n.target_id;
  source_key = n.source_key;
  summary = n.summary;
  context_label = n.context_label;
  status = open_todo;
  retry_used = false;
  created_at = now;
  resolved_at = none;
}

-- `rivals` are the rows that other transactions committed between the first select and the flush:
-- the unique constraint refuses the new row if one of them has its key.
unfoldable pub create_todo :
    (id now : ℕ) → NewTodo → List NotificationTodo → Db → (NotificationTodo × Bool) × Db
unfolding has_source todo_row
create_todo id now n rivals db =
    let mine = has_source n.recipient_account_id n.kind n.source_key in
    let todo = todo_row id now n in
    let joined = record db { todos = rivals ++ db.todos } in
    elim (scalar mine db.todos) [
      | some existing ↦ ((existing, false), db)
      | none ↦ elim (scalar mine rivals) [
        | some rival ↦ ((rival, false), joined)
        | none ↦ ((todo, true), record joined { todos = todo ∷ joined.todos })
      ]
    ]

abbrev pub resolved : TodoStatus → ℕ → NotificationTodo → NotificationTodo
resolved status now t = record t { status = status; resolved_at = some now }

-- the writes that end an open to-do: its own row, then its mail
unfoldable pub close_todo : ℕ → TodoStatus → ℕ → Db → Db
unfolding stop_todo_mail
close_todo now status todo_id db =
    stop_todo_mail todo_id cancelled
      (record db { todos = update (λ t. t.id == todo_id) (resolved status now) db.todos })

-- `complete_todo_by_source` and `cancel_todo_by_source`
unfoldable pub end_todo_by_source :
    TodoStatus → (now recipient_id : ℕ) → TodoKind → String → Db → Db
unfolding close_todo has_source
end_todo_by_source status now recipient_id kind source_key db =
    elim (scalar (has_source recipient_id kind source_key) db.todos) [
      | none ↦ db
      | some t ↦ if is_open t.status then close_todo now status t.id db else db
    ]

unfoldable pub complete_todo_by_source : (now recipient_id : ℕ) → TodoKind → String → Db → Db
unfolding end_todo_by_source
complete_todo_by_source = end_todo_by_source TodoStatus.completed

unfoldable pub cancel_todo_by_source : (now recipient_id : ℕ) → TodoKind → String → Db → Db
unfolding end_todo_by_source
cancel_todo_by_source = end_todo_by_source TodoStatus.cancelled

-- the loop over the selected to-dos
unfoldable pub close_each : ℕ → TodoStatus → List NotificationTodo → Db → Db
close_each now status [] db = db
close_each now status (t ∷ ts) db = close_each now status ts (close_todo now status t.id db)

-- `kind.in_(kinds)`, where no set is no condition
abbrev pub in_kinds : Option (TodoKind → Bool) → TodoKind → Bool
in_kinds none k = true
in_kinds (some kinds) k = kinds k

unfoldable pub targets : TargetKind → ℕ → Option (TodoKind → Bool) → NotificationTodo → Bool
targets target_kind target_id kinds t =
    same_target t.target_kind target_kind
    && t.target_id == target_id
    && is_open t.status
    && in_kinds kinds t.kind

unfoldable pub cancel_todos_for_target :
    (now : ℕ) → TargetKind → ℕ → Option (TodoKind → Bool) → Db → Db
unfolding close_each targets
cancel_todos_for_target now target_kind target_id kinds db =
    close_each now TodoStatus.cancelled (select (targets target_kind target_id kinds) db.todos) db

unfoldable pub complete_todos_for_target :
    (now : ℕ) → TargetKind → ℕ → Option (TodoKind → Bool) → Db → Db
unfolding close_each targets
complete_todos_for_target now target_kind target_id kinds db =
    close_each now TodoStatus.completed (select (targets target_kind target_id kinds) db.todos) db

unfoldable pub cancel_workspace_todos : (now workspace_id : ℕ) → Db → Db
unfolding close_each
cancel_workspace_todos now workspace_id db =
    close_each now TodoStatus.cancelled
      (select (λ t. t.workspace_id == workspace_id && is_open t.status) db.todos) db

-- `TODO_MAINTENANCE_KINDS`
abbrev pub todo_maintenance_kinds : TodoKind → Bool
todo_maintenance_kinds feedback_submitted = true
todo_maintenance_kinds issue_opened = true
todo_maintenance_kinds retest_arrangement_needed = true
todo_maintenance_kinds retest_arranged = true
todo_maintenance_kinds _ = false

unfoldable pub reveals_work : (recipient_id work_id : ℕ) → NotificationTodo → Bool
reveals_work recipient_id work_id t =
    t.recipient_account_id == recipient_id
    && holds t.work_id work_id
    && todo_maintenance_kinds t.kind

-- `ON DELETE SET NULL` of the column todo_id
abbrev pub unlinked : MailOutbox → MailOutbox
unlinked o = record o { todo_id = none }

unfoldable pub unlink_todo : ℕ → Db → Db
unlink_todo todo_id db = record db {
  outbox = update (λ o. holds o.todo_id todo_id) unlinked db.outbox;
}

unfoldable pub delete_each : List NotificationTodo → Db → Db
unfolding unlink_todo
delete_each [] db = db
delete_each (t ∷ ts) db =
    let stopped = unlink_todo t.id (stop_todo_mail t.id cancelled db) in
    delete_each ts (record stopped { todos = delete (λ u. u.id == t.id) stopped.todos })

unfoldable pub delete_work_access_todos : (recipient_id work_id : ℕ) → Db → Db
unfolding delete_each reveals_work
delete_work_access_todos recipient_id work_id db =
    delete_each (select (reveals_work recipient_id work_id) db.todos) db
