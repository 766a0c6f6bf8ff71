-- ===== src/Recovery/Request.antt =====
-- The arguments of the recovery commands in src/app/recovery/service.py.
use rulefolio_server.Prelude.{
  ℕ, String, Bool, true, false, not, ◌&&◌, ◌||◌, ◌==◌, leb, str_eq, if◌then◌else◌,
}
use Prim.Native.Char.{Char, code}
use Prim.Native.String.{count}
use rulefolio_server.Database.{Exec, fail_if, pure, ◌>>◌, recovery_failed}
use rulefolio_server.Recovery.Models.{request}
use mathlib.Core.List.{[]}

abbrev pub within : (low high n : ℕ) → Bool
within low high n = leb low n && leb n high

-- `[A-Za-z0-9]`
unfoldable pub is_alnum : Char → Bool
is_alnum c = within b'A' b'Z' (code c) || within b'a' b'z' (code c) || within b'0' b'9' (code c)

-- `[A-Za-z0-9._-]`
unfoldable pub is_id_char : Char → Bool
unfolding is_alnum
is_id_char c = is_alnum c || code c == b'.' || code c == b'_' || code c == b'-'

unfoldable pub all_id_chars : String → Bool
unfolding is_id_char
all_id_chars String.[] = true
all_id_chars (String.◌∷◌ c s) = is_id_char c && all_id_chars s

-- `RECOVERY_ID_PATTERN.fullmatch`
unfoldable pub matches_recovery_id : String → Bool
unfolding is_alnum all_id_chars
matches_recovery_id String.[] = false
matches_recovery_id (String.◌∷◌ c s) = is_alnum c && all_id_chars s && leb (count s) 127

-- the characters that `str.strip` removes
unfoldable pub is_space : Char → Bool
is_space c =
    let n = code c in
    within 9 13 n
    || within 28 32 n
    || n == 133
    || n == 160
    || n == 5760
    || within 8192 8202 n
    || within 8232 8233 n
    || n == 8239
    || n == 8287
    || n == 12288

unfoldable pub lstrip : String → String
unfolding is_space
lstrip String.[] = ""
lstrip (String.◌∷◌ c s) = let rest = lstrip s in if is_space c then rest else String.◌∷◌ c s

unfoldable pub rstrip : String → String
unfolding is_space
rstrip String.[] = ""
rstrip (String.◌∷◌ c s) =
    let rest = rstrip s in if str_eq rest "" && is_space c then "" else String.◌∷◌ c rest

unfoldable pub strip : String → String
unfolding lstrip rstrip
strip s = rstrip (lstrip s)

-- a stripped argument that is there and no longer than its column
unfoldable pub fits : (limit : ℕ) → String → Bool
fits limit s = not (str_eq s "") && leb (count s) limit

unfoldable pub require_operator_and_reason : (operator reason : String) → Exec (String × String)
unfolding strip fits
require_operator_and_reason operator reason = do
  fail_if (not (fits 128 (strip operator) && fits 256 (strip reason))) (recovery_failed request [])
  pure (strip operator, strip reason)

unfoldable pub require_recovery_id : String → Exec (Unit {0})
unfolding matches_recovery_id
require_recovery_id recovery_id =
    fail_if (not (matches_recovery_id recovery_id)) (recovery_failed request [])
