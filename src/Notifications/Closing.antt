-- ===== src/Notifications/Closing.antt =====
-- What the functions that end to-dos leave open.
use rulefolio_server.Prelude.{
  ℕ, String, Bool, ◌≡◌, ◌≢◌, ◌⊎◌, refl, ap, true, false, Option, none, some, arith, List, [], ◌∷◌,
  ◌==◌, ◌&&◌, ◌||◌, All, All-update, All-pure, All-map, Bool-cases, Option-cases, inl, inr, scalar,
  select, delete, delete-update,
}
use rulefolio_server.Notifications.Models.{
  TodoKind, TargetKind, TodoStatus, NotificationTodo, is_open,
}
use rulefolio_server.Notifications.Todos.{
  close_todo, close_each, resolved, has_source, end_todo_by_source, targets,
  cancel_todos_for_target, complete_todos_for_target, cancel_workspace_todos,
}
use rulefolio_server.Notifications.Outbox.{stop_todo_mail}
use rulefolio_server.Notifications.Stopping.{IsSilent, close_todo-IsSilent, close_each-IsSilent}
use rulefolio_server.Database.{Db}

-- the to-do is in the list, by its id
abbrev listed : List NotificationTodo → ℕ → Bool
listed [] id = false
listed (t ∷ ts) id = t.id == id || listed ts id

select-grows :
    (q : NotificationTodo → Bool) (t : NotificationTodo) (ts : List NotificationTodo) (id : ℕ)
    → listed (select q ts) id ≡ true
    → listed (select q (t ∷ ts)) id ≡ true
unfolding select
select-grows q t ts id h = ground arith

select-head :
    (q : NotificationTodo → Bool) (t : NotificationTodo) (ts : List NotificationTodo)
    → q t ≡ true
    → listed (select q (t ∷ ts)) t.id ≡ true
unfolding select
select-head q t ts h = ground arith

select-listed :
    (q : NotificationTodo → Bool) (ts : List NotificationTodo)
    → All (λ t. q t ≡ true → listed (select q ts) t.id ≡ true) ts
select-listed q [] = tt
select-listed q (t ∷ ts) = (
  select-head q t ts,
  All-map (λ u. q u ≡ true → listed (select q ts) u.id ≡ true)
      (λ u. q u ≡ true → listed (select q (t ∷ ts)) u.id ≡ true) ts
      (λ u k h. select-grows q t ts u.id (k h)) (select-listed q ts),
)

-- Ending the listed to-dos leaves open none that the list covers.
close_each-leaves_none :
    (q : NotificationTodo → Bool) (now : ℕ) (status : TodoStatus) (ts : List NotificationTodo)
    (db : Db)
    → ((t : NotificationTodo) → q t ≡ true → is_open t.status ≡ true)
    → is_open status ≡ false
    → All (λ t. q t ≡ true → listed ts t.id ≡ true) db.todos
    → All (λ t. q t ≡ false) (close_each now status ts db).todos
unfolding close_each close_todo stop_todo_mail
close_each-leaves_none q now status [] db opened shut h =
    All-map _ _ db.todos (λ t k. elim (Bool-cases (q t)) [ inl e ↦ cc (k e) | inr e ↦ e ]) h
close_each-leaves_none q now status (t ∷ ts) db opened shut h =
    close_each-leaves_none q now status ts (close_todo now status t.id db) opened shut (
      All-update (λ u. q u ≡ true → listed (t ∷ ts) u.id ≡ true)
        (λ u. q u ≡ true → listed ts u.id ≡ true) _ _ db.todos
        (λ u k hit e. ground (arith, opened (resolved status now u) e))
        (λ u k miss e. ground (arith, k e)) h)

-- Cancelling, or completing, the to-dos of a target leaves none of the kinds in question open for
-- that target, and none of the mail of each that was open is waiting, or claimed without an SMTP
-- start.
pub end_target :
    (now : ℕ) (kind : TargetKind) (id : ℕ) (kinds : Option (TodoKind → Bool)) (db : Db)
    → let ended = select (targets kind id kinds) db.todos in
      let cancelled = cancel_todos_for_target now kind id kinds db in
      let completed = complete_todos_for_target now kind id kinds db in
      All (λ t. targets kind id kinds t ≡ false) cancelled.todos
      × All (λ t. targets kind id kinds t ≡ false) completed.todos
      × All (λ t. IsSilent t.id cancelled) ended
      × All (λ t. IsSilent t.id completed) ended
unfolding cancel_todos_for_target complete_todos_for_target
end_target now kind id kinds db = (
  close_each-leaves_none (targets kind id kinds) now TodoStatus.cancelled _ db target_open refl
      (select-listed (targets kind id kinds) db.todos),
  close_each-leaves_none (targets kind id kinds) now TodoStatus.completed _ db target_open refl
      (select-listed (targets kind id kinds) db.todos),
  close_each-IsSilent now TodoStatus.cancelled _ db,
  close_each-IsSilent now TodoStatus.completed _ db,
)
  where
    target_open : (t : NotificationTodo) → targets kind id kinds t ≡ true → is_open t.status ≡ true
    target_open t h = unfold targets in ground arith

-- The exit of a workspace leaves no to-do of the workspace open, and silences the mail of each that
-- was.
pub end_workspace :
    (now workspace_id : ℕ) (db : Db)
    → let mine = λ (t : NotificationTodo). t.workspace_id == workspace_id && is_open t.status in
      let db' = cancel_workspace_todos now workspace_id db in
      All (λ t. mine t ≡ false) db'.todos × All (λ t. IsSilent t.id db') (select mine db.todos)
unfolding cancel_workspace_todos
end_workspace now workspace_id db = (
  close_each-leaves_none _ now TodoStatus.cancelled _ db (λ t h. ground arith) refl
      (select-listed _ db.todos),
  close_each-IsSilent now TodoStatus.cancelled _ db,
)

close_todo-resolves :
    (now : ℕ) (status : TodoStatus) (id : ℕ) (db : Db)
    → All
        (λ u. u.id ≡ id → (u.status ≡ status) × (u.resolved_at ≡ some now))
        (close_todo now status id db).todos
unfolding close_todo stop_todo_mail
close_todo-resolves now status id db =
    All-update (λ u. Unit {0}) _ _ _ db.todos (λ u k hit same. ground arith)
      (λ u k miss same. ground arith) (All-pure (λ u. Unit {0}) db.todos (λ u. tt))

close_todo-others :
    (now : ℕ) (status : TodoStatus) (id : ℕ) (db : Db)
    → delete (λ u. u.id == id) (close_todo now status id db).todos
      ≡ delete (λ u. u.id == id) db.todos
unfolding close_todo stop_todo_mail
close_todo-others now status id db =
    delete-update (λ u. u.id == id) (resolved status now) db.todos (λ u. refl)

-- If the to-do that a recipient, a kind and a source name is open, then ending it gives every row
-- with its id the new status and the time of its resolution, leaves every row with another id as
-- it was, and leaves none of its mail waiting, or claimed without an SMTP start; if there is no
-- such to-do, or it is not open, nothing is changed.
pub end_source :
    (status : TodoStatus) (now recipient : ℕ) (kind : TodoKind) (key : String) (db : Db)
    → let db' = end_todo_by_source status now recipient kind key db in
      let found = scalar (has_source recipient kind key) db.todos in
      ((t : NotificationTodo) × (found ≡ some t)
        × (t.status ≡ TodoStatus.open_todo)
        × IsSilent t.id db'
        × All (λ u. u.id ≡ t.id → (u.status ≡ status) × (u.resolved_at ≡ some now)) db'.todos
        × (delete (λ u. u.id == t.id) db'.todos ≡ delete (λ u. u.id == t.id) db.todos))
      ⊎ (((found ≡ none)
            ⊎ ((t : NotificationTodo) × (found ≡ some t) × (t.status ≢ TodoStatus.open_todo)))
          × (db' ≡ db))
unfolding end_todo_by_source
end_source status now recipient kind key db =
    elim (Option-cases (scalar (has_source recipient kind key) db.todos)) [
      | inl missing ↦ inr (inl missing, rw (missing, end_todo_by_source) refl)
      | inr (t, found) ↦ elim (Bool-cases (is_open t.status)) [
        | inr shut ↦ inr (
          inr (t, found, λ opened. cc (shut, ap is_open opened)),
          rw (found, end_todo_by_source) (rw shut refl),
        )
        | inl opened ↦ inl (
          t,
          found,
          open_status t.status opened,
          rw (found, end_todo_by_source) (rw opened (close_todo-IsSilent now status t.id db)),
          rw (found, end_todo_by_source) (rw opened (close_todo-resolves now status t.id db)),
          rw (found, end_todo_by_source) (rw opened (close_todo-others now status t.id db)),
        )
      ]
    ]
  where
    open_status : (s : TodoStatus) → is_open s ≡ true → s ≡ TodoStatus.open_todo
    open_status s h = ground (arith, h)
