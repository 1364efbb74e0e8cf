-- ===== src/Util/Snapshots.antt =====
-- `sameSnapshot` of src/util.ts.
use codex_unlock.Base.{◌≡◌, Bool, true, false, ◌&&◌, Option, none, some, ◌==◌, nat_eq, arith}
use codex_unlock.Types.{PublicFileSnapshot}

-- The fields that are compared.
abbrev pub SameFile : PublicFileSnapshot → PublicFileSnapshot → Type 0
SameFile l r =
    (l.device ≡ r.device)
    × (l.inode ≡ r.inode)
    × (l.size ≡ r.size)
    × (l.modified_ms ≡ r.modified_ms)

unfoldable pub same_snapshot : Option PublicFileSnapshot → Option PublicFileSnapshot → Bool
same_snapshot (some l) (some r) =
    l.device == r.device && l.inode == r.inode && l.size == r.size && l.modified_ms == r.modified_ms
same_snapshot _ _ = false

-- Both snapshots are there and the compared fields are equal.
abbrev pub SameSnapshot : Option PublicFileSnapshot → Option PublicFileSnapshot → Type 0
SameSnapshot (some l) (some r) = SameFile l r
SameSnapshot _ _ = ⊥

pub same_snapshot_sound :
    (l r : Option PublicFileSnapshot) → same_snapshot l r ≡ true → SameSnapshot l r
unfolding same_snapshot
same_snapshot_sound (some l) (some r) h = ground arith
same_snapshot_sound (some l) none h = cc
same_snapshot_sound none (some r) h = cc
same_snapshot_sound none none h = cc

pub same_snapshot_complete :
    (l r : Option PublicFileSnapshot) → SameSnapshot l r → same_snapshot l r ≡ true
unfolding same_snapshot
same_snapshot_complete (some l) (some r) h = ground arith
same_snapshot_complete (some l) none h = elim h [ ]
same_snapshot_complete none (some r) h = elim h [ ]
same_snapshot_complete none none h = elim h [ ]
