-- ===== src/Database/Reads.antt =====
-- Parts of a service that only read: they return in the session that they began in, or they roll
-- back and raise.
use rulefolio_server.Prelude.{◌≡◌}
use rulefolio_server.Database.{Db, Session, Exec, ok, ◌>>=◌}
use rulefolio_server.Database.Leaves.{Leaves, bind-Leaves}

-- `m`, begun in `s`, only reads, and what it returns has the property `Q`
abbrev pub Reads : {A : Type 0} → (A → Type 0) → Exec A → Session → Type 0
Reads {A} Q m s = ((m s).1.durable ≡ s.durable) × ((a : A) → (m s).0 ≡ ok a → ((m s).1 ≡ s) × Q a)

abbrev pub Any : {A : Type 0} → A → Type 0
Any a = Unit {0}

-- a part that only reads, and then the rest
pub Reads-Leaves :
    {A B : Type 0} (P : Db → Type 0) (R : B → Type 0) (m : Exec B) (k : B → Exec A) (s : Session)
    → Reads R m s
    → P s.durable
    → ((b : B) → R b → Leaves P (k b) s)
    → Leaves P (m >>= k) s
Reads-Leaves P R m k s (held, read) base rest =
    bind-Leaves P m k s (rw held base)
      (λ b found. let (same, r) = read b found in rw same (rest b r))
