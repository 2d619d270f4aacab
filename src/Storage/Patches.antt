-- ===== src/Storage/Patches.antt =====
-- storage/queries/patches.go: the patch that was live at a time.
use brawl_stars_guide.Base.{ℕ, Option, none, some, List, ok, ltb, leb, least_where}
use brawl_stars_guide.Storage.Schema.{Patch}
use brawl_stars_guide.Storage.Statement.{Env, M, exec}

-- WHERE released_at <= $1 ORDER BY released_at DESC LIMIT 1
unfoldable pub live_patch : ℕ → List Patch → Option Patch
live_patch t = least_where (λ p. leb p.released_at t) (λ p q. ltb q.released_at p.released_at)

abbrev patch_id : Option Patch → Option ℕ
patch_id none = none
patch_id (some p) = some p.id

-- No row is NULL, not an error.
unfoldable pub patch_id_for_time : Env → ℕ → M (Option ℕ)
patch_id_for_time e t = exec e (λ now db. (ok (patch_id (live_patch t db.patches)), db))
