-- ===== src/Ingestion/Fingerprint/Identity.antt =====
-- ingestion/fingerprint.go: the fingerprints of the orders in which a battle may be reported.
use mathlib.Core.List.{Perm}
use brawl_stars_guide.Base.{◌≡◌, map}
use brawl_stars_guide.Apiclient.Tags.{normalize_tag}
use brawl_stars_guide.Ingestion.Runtime.{Runtime}
use brawl_stars_guide.Ingestion.Fingerprint.{BattleKey, normal_tags, raw_key, compute_fingerprint}
use brawl_stars_guide.Ingestion.Fingerprint.Sorting.{sort-perm}

-- Two log entries of one battle have one fingerprint, in whatever order they list the players and
-- however they write the tags: keys of the same time and event have the same fingerprint if
-- the normal forms of their tags are the same up to order.
pub fingerprint_invariant :
    (rt : Runtime) (a b : BattleKey)
    → a.battle_time ≡ b.battle_time
    → a.supcell_event_id ≡ b.supcell_event_id
    → Perm
        (map (normalize_tag rt.wide) a.participant_tags)
        (map (normalize_tag rt.wide) b.participant_tags)
    → compute_fingerprint rt a ≡ compute_fingerprint rt b
unfolding compute_fingerprint raw_key normal_tags
fingerprint_invariant rt a b time event tags = cc (sort-perm tags)
