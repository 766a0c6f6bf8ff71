-- ===== src/Notifications/Retry.antt =====
-- The single retry of a failed business mail.
use rulefolio_server.Prelude.{
  ℕ, String, Bool, ◌≡◌, refl, true, false, some, none, arith, ◌==◌, ◌&&◌, scalar-update, update,
  ◌∙◌,
}
use rulefolio_server.Notifications.Models.{NotificationTodo, is_open}
use rulefolio_server.Notifications.Outbox.{enqueue_business_mail}
use rulefolio_server.Notifications.Todos.{NotificationTodoData, Owners}
use rulefolio_server.Notifications.Requests.{
  own_todo, existing_retry, spent, retry_anew, retry_failed_mail,
}
use rulefolio_server.Workspaces.Models.{Workspace}
use rulefolio_server.Workspaces.Access.{ensure_workspace_writable}
use rulefolio_server.Database.{Db, Session, ok, err, begin, mail_retry_used}

module _ (visible : Workspace → Bool) (owners : Owners) where
  -- what a retry that went through has found and written
  retry_anew-facts :
      (outbox_id now : ℕ) (t : NotificationTodo) (key : String) (s : Session)
      {d : NotificationTodoData}
      → (retry_anew visible owners outbox_id now t key s).0 ≡ ok d
      → (is_open t.status ≡ true)
        × (t.retry_used ≡ false)
        × ((retry_anew visible owners outbox_id now t key s).1.durable.todos
            ≡ update (λ u. u.id == t.id) spent s.current.todos)
        × ((retry_anew visible owners outbox_id now t key s).1.durable.workspaces
            ≡ s.current.workspaces)
        × ((ensure_workspace_writable visible t.workspace_id s).0 ≡ ok tt)
  unfolding retry_anew enqueue_business_mail
  retry_anew-facts outbox_id now t key s e = ground arith

  -- whether a workspace is writable depends on the table of workspaces only
  writable-same :
      (id : ℕ) (s s' : Session)
      → s'.current.workspaces ≡ s.current.workspaces
      → (ensure_workspace_writable visible id s).0 ≡ ok tt
      → (ensure_workspace_writable visible id s').0 ≡ ok tt
  unfolding ensure_workspace_writable
  writable-same id s s' same e = ground arith

  retry_anew-spent :
      (outbox_id now : ℕ) (t : NotificationTodo) (key : String) (s : Session)
      → is_open t.status ≡ true
      → (ensure_workspace_writable visible t.workspace_id s).0 ≡ ok tt
      → (retry_anew visible owners outbox_id now (spent t) key s).0 ≡ err mail_retry_used
  unfolding retry_anew
  retry_anew-spent outbox_id now t key s opened writable = ground arith

  own_todo-spent :
      (recipient id : ℕ) (db db' : Db) {t : NotificationTodo}
      → own_todo recipient id db ≡ some t
      → db'.todos ≡ update (λ u. u.id == t.id) spent db.todos
      → own_todo recipient id db' ≡ some (spent t)
  unfolding own_todo
  own_todo-spent recipient id db db' {t} found written = rw written (
      scalar-update (λ u. u.id == id && u.recipient_account_id == recipient) (λ u. u.id == t.id)
        spent db.todos (λ u. refl)
      ∙ rw found (ground arith))

  retry_failed_mail-anew :
      (outbox_id now recipient id : ℕ) (key : String) (s : Session) {t : NotificationTodo}
      → own_todo recipient id s.current ≡ some t
      → existing_retry t.id key s.current ≡ none
      → retry_failed_mail visible owners outbox_id now recipient id key s
        ≡ retry_anew visible owners outbox_id now t key s
  unfolding retry_failed_mail
  retry_failed_mail-anew outbox_id now recipient id key s found free = ground arith

  -- the same, after the first call is known to be a new retry
  refused_after :
      (outbox_id outbox_id' now now' recipient id : ℕ) (key key' : String) (s : Session)
      (accepts : ℕ → Bool) {t : NotificationTodo} {d : NotificationTodoData}
      → own_todo recipient id s.current ≡ some t
      → (retry_anew visible owners outbox_id now t key s).0 ≡ ok d
      → existing_retry t.id key' (retry_anew visible owners outbox_id now t key s).1.durable ≡ none
      → (retry_failed_mail visible owners outbox_id' now' recipient id key'
          (begin (retry_anew visible owners outbox_id now t key s).1.durable accepts)).0
        ≡ err mail_retry_used
  refused_after outbox_id outbox_id' now now' recipient id key key' s accepts {t} found done other =
      let after = (retry_anew visible owners outbox_id now t key s).1.durable in
      let (opened, unused, written, kept, writable) = retry_anew-facts outbox_id now t key s done in
      rw
        (retry_failed_mail-anew outbox_id' now' recipient id key' (begin after accepts)
          (own_todo-spent recipient id s.current after found written) other)
        (retry_anew-spent outbox_id' now' t key' (begin after accepts) opened
          (writable-same t.workspace_id s (begin after accepts) kept writable))

  -- A to-do's failed mail is retried once: after a retry went through, a retry under another key is
  -- refused as used, whenever it comes and whatever the clock shows.
  pub retry_once :
      (outbox_id outbox_id' now now' recipient id : ℕ) (key key' : String) (s : Session)
      (accepts : ℕ → Bool) {t : NotificationTodo} {d : NotificationTodoData}
      → own_todo recipient id s.current ≡ some t
      → existing_retry t.id key s.current ≡ none
      → (retry_failed_mail visible owners outbox_id now recipient id key s).0 ≡ ok d
      → let db = (retry_failed_mail visible owners outbox_id now recipient id key s).1.durable in
        existing_retry t.id key' db ≡ none
        → (retry_failed_mail visible owners outbox_id' now' recipient id key' (begin db accepts)).0
          ≡ err mail_retry_used
  retry_once outbox_id outbox_id' now now' recipient id key key' s accepts found free done other =
      let first = retry_failed_mail-anew outbox_id now recipient id key s found free in
      rw first (
        refused_after outbox_id outbox_id' now now' recipient id key key' s accepts found
          (rw first at done) (rw first at other))
