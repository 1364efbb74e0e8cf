-- ===== src/Util/PublicSnapshot.antt =====
-- `publicSnapshot` of src/util.ts: the checked conversion of a file's status.
use codex_unlock.Base.{ℕ, String, Bool, Option, none, some, leb, if◌then◌else◌, ◌≡◌, arith}
use codex_unlock.Types.{PublicFileSnapshot}
use codex_unlock.Util.{Error, ◌<>◌}
use codex_unlock.Io.{Stats, Res, ok, throw, M, new_error}

-- Number.MAX_SAFE_INTEGER
abbrev pub max_safe_integer : ℕ
max_safe_integer = 9_007_199_254_740_991

abbrev pub is_safe : ℕ → Bool
is_safe n = leb n max_safe_integer

infixl 5 ◌>>=◌
abbrev ◌>>=◌ {ℓ κ} : {A : Type ℓ} {B : Type κ} → Res A → (A → Res B) → Res B
ok a >>= f = f a
throw e >>= f = throw e

pub integer : String → ℕ → Res ℕ
integer field n =
    if is_safe n
    then ok n
    else throw (new_error ("file snapshot " <> field <> " is not a safe non-negative integer"))

or_invalid {ℓ} : {A : Type ℓ} → Option A → String → Res A
or_invalid (some a) message = ok a
or_invalid none message = throw (new_error message)

unfoldable pub public_snapshot : Stats → Res PublicFileSnapshot
unfolding integer or_invalid
public_snapshot value = do
  ms ← or_invalid value.modified_ms "file snapshot modification time is not representable"
  mode ← integer "mode" value.mode
  uid ← integer "uid" value.uid
  links ← integer "links" value.nlink
  size ← integer "size" value.size
  modified_at ← or_invalid value.modified_at "Invalid time value"
  ok (record {
    device = value.dev;
    inode = value.ino;
    mode = mode;
    uid = uid;
    links = links;
    size = size;
    modified_at = modified_at;
    modified_ms = ms;
  })

-- A conversion in a computation: it throws what the conversion throws.
abbrev pub snapshot : Stats → M PublicFileSnapshot
snapshot value s = (public_snapshot value, s)

-- The conversion's own errors have no code.
pub public_snapshot-code :
    (value : Stats) (e : Error) → public_snapshot value ≡ throw e → e.code ≡ ""
unfolding public_snapshot integer or_invalid
public_snapshot-code value e h = ground (arith, h)
