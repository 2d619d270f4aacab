-- ===== src/Storage/Brawlers.antt =====
-- storage/queries/brawlers.go: the reference table of brawlers.
use brawl_stars_guide.Base.{
  ℕ, Bool, false, String, str_eq, none, some, [], ◌∷◌, ◌++◌, ok, ◌==◌, if◌then◌else◌, any_where,
  update_where,
}
use brawl_stars_guide.Storage.Schema.{Brawler}
use brawl_stars_guide.Storage.Statement.{Env, M, Statement, exec}

abbrev pub brawler_is : ℕ → Brawler → Bool
brawler_is id b = b.id == id

-- `now` is time.Now() of the process. raw_data is not kept.
unfoldable pub upsert_brawler : Env → ℕ → String → String → String → Bool → M (Unit {0})
upsert_brawler e id name rarity class is_active w =
    let row : Brawler = record {
      id = id;
      name = name;
      rarity = some rarity;
      class = some class;
      is_active = is_active;
      updated_at = e.wall w.step;
    } in
    exec e
      (λ now db. (
        ok tt,
        record db {
          brawlers =
              if any_where (brawler_is id) db.brawlers
              then update_where (brawler_is id) (λ b. row) db.brawlers
              else db.brawlers ++ row ∷ [];
        },
      ))
      w

unfoldable pub brawler_exists : Env → ℕ → M Bool
brawler_exists e id = exec e (λ now db. (ok (any_where (brawler_is id) db.brawlers), db))

-- The name of a placeholder; `show` is fmt.Sprintf("BRAWLER_%d", id).
abbrev pub placeholder_name : (ℕ → String) → ℕ → String → String
placeholder_name show id name = if str_eq name "" then show id else name

abbrev pub retired_brawler : ℕ → String → ℕ → Brawler
retired_brawler id name now = record {
  id = id;
  name = name;
  rarity = none;
  class = none;
  is_active = false;
  updated_at = now;
}

unfoldable pub ensure_statement : ℕ → String → Statement (Unit {0})
ensure_statement id name now db =
    if any_where (brawler_is id) db.brawlers
    then (ok tt, db)
    else (ok tt, record db { brawlers = db.brawlers ++ retired_brawler id name now ∷ [] })

unfoldable pub ensure_retired_brawler : Env → (ℕ → String) → ℕ → String → M (Unit {0})
ensure_retired_brawler e show id name = exec e (ensure_statement id (placeholder_name show id name))
