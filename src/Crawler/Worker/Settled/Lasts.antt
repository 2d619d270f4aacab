-- ===== src/Crawler/Worker/Settled/Lasts.antt =====
-- crawler/worker.go: a stored entry of the battle log stays over the rest of the crawl.
use brawl_stars_guide.Base.{ℕ, Bool, refl, List, [], ◌∷◌}
use brawl_stars_guide.Apiclient.Types.{BattleEntry}
use brawl_stars_guide.Storage.Schema.{Battle, Participant}
use brawl_stars_guide.Storage.Statement.{World}
use brawl_stars_guide.Storage.Statement.Keeps.{Keeps, handle-keeps}
use brawl_stars_guide.Storage.Crawl.{
  ClaimResult, FinalizeParams, finalize_crawl, finalize_statement,
}
use brawl_stars_guide.Ingestion.Discovery.{BattleIngestor}
use brawl_stars_guide.Ingestion.Battle.Effects.{ingest_battle-keeps}
use brawl_stars_guide.Ingestion.Battle.Lasting.{Lasting, lasting_ops, elsewhere}
use brawl_stars_guide.Ingestion.Battle.Rows.{KeepsRows, row_tags, all-keeps}
use brawl_stars_guide.Ingestion.Battle.Stored.{row_lasts, battle_lasts}
use brawl_stars_guide.Ingestion.Battle.Entries.{EntryStored}
use brawl_stars_guide.Crawler.Worker.{Worker, ingest_failed, ingest_entries}
use brawl_stars_guide.Crawler.Worker.Whole.{unless-Keeps, transient-Keeps, finish-Keeps}

module _ (k : Worker) (claim : ClaimResult) (keeps : KeepsRows k.env) where
  module _ (Q : List Battle → List Participant → Type 0) (l : Lasting k.env Q) where
    abbrev Fact : World → Type 0
    Fact w = Q w.db.battles w.db.participants

    finalizes : (p : FinalizeParams) → Keeps Fact (finalize_crawl k.env p)
    unfolding finalize_crawl finalize_statement
    finalizes p = elsewhere k.env Q l _ (λ now d. (refl, refl))

    entries-keep :
        (out : Bool) (priority : ℕ) (b : BattleIngestor) (entries : List BattleEntry)
        (new found : ℕ)
        → Keeps Fact (ingest_entries k claim out priority b entries new found)
    unfolding ingest_entries ingest_failed
    entries-keep out priority b [] new found = finish-Keeps Fact k claim finalizes _ _ _ _
    entries-keep out priority b (entry ∷ entries) new found =
        handle-keeps Fact _ _ _
          (ingest_battle-keeps Fact k.runtime k.env b (lasting_ops k.env Q l k.runtime b) entry)
          (λ x. unless-Keeps Fact k _ _ (transient-Keeps Fact k claim finalizes))
          (λ r. entries-keep out priority b entries _ _)

  pub entry-lasts :
      (entry : BattleEntry) (out : Bool) (priority : ℕ) (b : BattleIngestor)
      (entries : List BattleEntry) (new found : ℕ)
      → Keeps
          (EntryStored k.runtime entry)
          (ingest_entries k claim out priority b entries new found)
  entry-lasts entry out priority b entries new found w (time, id, read, has, rows) = (
    time,
    id,
    read,
    entries-keep _ (battle_lasts k.runtime k.env b keeps _ id) out priority b entries new found w
        has,
    all-keeps id (row_tags k.runtime entry.battle.teams entry.battle.players)
        (ingest_entries k claim out priority b entries new found)
        (λ tag.
          entries-keep _ (row_lasts k.runtime k.env b keeps id tag) out priority b entries new
            found)
        w rows,
  )
