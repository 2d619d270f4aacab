-- ===== src/Examples/Pure.antt =====
-- Tags, buckets, backoff, pacing, fingerprints, team results and requests at concrete inputs.
use mathlib.Core.List.Perm
use mathlib.Core.List.{Perm}
use brawl_stars_guide.Base.{
  ℕ, ◌*◌, ◌^◌, ◌≤◌, ◌≡◌, refl, inl, true, false, Text, codes, [], ◌∷◌, ◌++◌, map, some, none, ℤ,
  pos, negsuc, arith, min, api_error, count_where, text_le, any_where, text_eq, Option,
  if◌then◌else◌, ◌==◌,
}
use brawl_stars_guide.Domain.{bucket_for_trophies, priority_for_trophies}
use brawl_stars_guide.Domain.Agreement.{bucket_priority, bucket_and_priority}
use brawl_stars_guide.Apiclient.Types.{BattleParticipant}
use brawl_stars_guide.Apiclient.Tags.{to_upper_rune, normalize_tag, encoded_tag}
use brawl_stars_guide.Apiclient.Client.{
  Client, response, get, is_not_found, is_too_many_requests, is_unauthorized, is_forbidden,
}
use brawl_stars_guide.Apiclient.Laws.{IsUpperTable, normalize_tag_canonical, get_error_class}
use brawl_stars_guide.Ratelimit.{minute, new, slots, reserve}
use brawl_stars_guide.Ratelimit.Spacing.{Spaced, in_window, slots-Spaced, slots_per_minute}
use brawl_stars_guide.Crawler.Backoff.{hour, max_backoff, backoff_duration}
use brawl_stars_guide.Crawler.Backoff.Bounds.{backoff-eq-min}
use brawl_stars_guide.Ingestion.Runtime.{Runtime}
use brawl_stars_guide.Ingestion.Fingerprint.{
  BattleKey, compute_fingerprint, raw_key, normal_tags, sort_strings, join_bar, decimal,
}
use brawl_stars_guide.Ingestion.Fingerprint.Separation.{fingerprint_separates}
use brawl_stars_guide.Ingestion.Fingerprint.Identity.{fingerprint_invariant}
use brawl_stars_guide.Ingestion.TeamResults.{
  opposite_result, resolve_team_results, results_from, discoverer_team,
}
use brawl_stars_guide.Ingestion.TeamResults.Perspective.{perspective_independent}

abbrev same_rune : ℕ → ℕ
same_rune c = c

-- Some of unicode.ToUpper: the small e with an acute accent, the dotless i and the long s.
abbrev some_upper : ℕ → ℕ
some_upper c = if c == 233 then 201 else if c == 305 then b'I' else if c == 383 then b'S' else c

some_upper-IsUpperTable : IsUpperTable some_upper
some_upper-IsUpperTable = record { lands = λ c h. ground arith; idem = λ c h wide. ground arith }

bucket_and_priority_example :
    (1 ≤ bucket_for_trophies (pos 700))
    × (bucket_for_trophies (pos 700) ≤ bucket_for_trophies (pos 25000))
    × (bucket_for_trophies (pos 25000) ≤ 6)
    × (priority_for_trophies (pos 700) ≡ bucket_priority (bucket_for_trophies (pos 700)))
bucket_and_priority_example = bucket_and_priority (pos 700) (pos 25000) (omega arith)

bucket_table :
    map bucket_for_trophies (pos 499 ∷ pos 500 ∷ pos 9999 ∷ pos 10000 ∷ pos 40000 ∷ [])
    ≡ 1 ∷ 2 ∷ 3 ∷ 4 ∷ 6 ∷ []
unfolding bucket_for_trophies
bucket_table = refl

normalize_test : normalize_tag same_rune (codes "#abX12") ≡ codes "ABX12"
unfolding normalize_tag to_upper_rune
normalize_test = refl

-- An "a", a dotless i and a "1".
abbrev dotless_tag : Text
dotless_tag = b'a' ∷ 305 ∷ b'1' ∷ []

dotless_test : normalize_tag some_upper dotless_tag ≡ codes "AI1"
unfolding normalize_tag to_upper_rune
dotless_test = refl

normalize_tag_canonical_example :
    (normalize_tag some_upper (codes "#" ++ dotless_tag) ≡ normalize_tag some_upper (dotless_tag))
    × (normalize_tag some_upper (normalize_tag some_upper (dotless_tag))
        ≡ normalize_tag some_upper (dotless_tag))
    × (encoded_tag some_upper (codes "#" ++ dotless_tag) ≡ encoded_tag some_upper (dotless_tag))
    × (encoded_tag some_upper (normalize_tag some_upper (dotless_tag))
        ≡ encoded_tag some_upper (dotless_tag))
normalize_tag_canonical_example =
    normalize_tag_canonical some_upper (dotless_tag) some_upper-IsUpperTable refl

-- A server that refuses every key.
abbrev refused_client : Client
refused_client = record {
  token = codes "key";
  network = record { valid_request = λ url. true; send = λ token url. response 403 [] };
}

abbrev decode_nothing : Text → Option ℕ
decode_nothing body = none

get_error_class_example :
    (is_unauthorized (api_error 403 (codes "/brawlers")) ≡ false)
    × (is_forbidden (api_error 403 (codes "/brawlers")) ≡ true)
    × (is_not_found (api_error 403 (codes "/brawlers")) ≡ false)
    × (is_too_many_requests (api_error 403 (codes "/brawlers")) ≡ false)
unfolding get
get_error_class_example =
    get_error_class refused_client decode_nothing (codes "/brawlers") 403 []
      (api_error 403 (codes "/brawlers")) refl refl refl

slots-Spaced_example :
    Spaced 750000000 0 (slots (record { interval = 750000000; last = 0 }) (9 ∷ 8 ∷ []))
slots-Spaced_example = slots-Spaced (record { interval = 750000000; last = 0 }) (9 ∷ 8 ∷ []) refl

slots_test :
    slots (record { interval = 10; last = 0 }) (100 ∷ 101 ∷ 102 ∷ 200 ∷ [])
    ≡ 100 ∷ 110 ∷ 120 ∷ 200 ∷ []
unfolding slots reserve
slots_test = refl

slots_per_minute_example : count_where (in_window 5 minute) (slots (new 80) (9 ∷ 8 ∷ [])) ≤ 80
slots_per_minute_example = slots_per_minute 80 5 (9 ∷ 8 ∷ []) refl

-- The conversion of amd64.
abbrev wrapping : ℕ → ℤ
wrapping d = negsuc 9223372036854775807

backoff-eq-min_example :
    backoff_duration wrapping (4 * hour) (pos 3) ≡ min (2 ^ 3 * (4 * hour)) max_backoff
backoff-eq-min_example = backoff-eq-min wrapping (4 * hour) 3 (λ d h. inl (omega arith))

abbrev plain_runtime : Runtime
plain_runtime = record {
  wide = same_rune;
  show_brawler = λ id. "BRAWLER";
  sha256_hex = λ t. t;
  parse_time = λ t. some 7;
  format_time = λ t. codes "20240901T143022.000Z";
}

abbrev first_key : BattleKey
first_key = record {
  battle_time = 7;
  supcell_event_id = 15;
  participant_tags = codes "#b2" ∷ codes "A1" ∷ [];
}

abbrev second_key : BattleKey
second_key = record {
  battle_time = 7;
  supcell_event_id = 15;
  participant_tags = codes "a1" ∷ codes "#B2" ∷ [];
}

fingerprint_invariant_example :
    compute_fingerprint plain_runtime first_key ≡ compute_fingerprint plain_runtime second_key
unfolding normalize_tag to_upper_rune
fingerprint_invariant_example =
    fingerprint_invariant plain_runtime first_key second_key refl refl
      (Perm.swap (codes "A1") (codes "B2") [])

-- Times are written in one letter.
abbrev brief_runtime : Runtime
brief_runtime = record plain_runtime { format_time = λ t. codes "T" }

fingerprint_separates_example :
    (first_key.battle_time ≡ second_key.battle_time)
    × (first_key.supcell_event_id ≡ second_key.supcell_event_id)
    × Perm (codes "B2" ∷ codes "A1" ∷ []) (codes "A1" ∷ codes "B2" ∷ [])
unfolding compute_fingerprint raw_key normal_tags sort_strings join_bar decimal normalize_tag
    to_upper_rune text_le
fingerprint_separates_example =
    fingerprint_separates brief_runtime first_key second_key (λ e. e) (λ e. refl) (ground arith)
      (ground arith) (ground arith) (ground arith) (λ e. cc) (λ e. cc) refl

fingerprint_test :
    compute_fingerprint plain_runtime first_key ≡ codes "20240901T143022.000Z|15|A1|B2"
unfolding compute_fingerprint raw_key normal_tags sort_strings join_bar decimal normalize_tag
    to_upper_rune text_le
fingerprint_test = refl

abbrev participant : Text → BattleParticipant
participant tag = record {
  tag = tag;
  name = "someone";
  brawler = record { id = 16000000; name = "SHELLY"; power = 9; trophies = pos 700 };
}

perspective_independent_example :
    resolve_team_results same_rune
      ((participant (codes "#A1") ∷ []) ∷ (participant (codes "#b2") ∷ []) ∷ [])
      "victory"
      (codes "A1")
    ≡ resolve_team_results same_rune
        ((participant (codes "#A1") ∷ []) ∷ (participant (codes "#b2") ∷ []) ∷ [])
        (opposite_result "victory")
        (codes "B2")
unfolding normalize_tag to_upper_rune any_where text_eq
perspective_independent_example =
    perspective_independent same_rune (participant (codes "#A1") ∷ [])
      (participant (codes "#b2") ∷ []) "victory" (codes "A1") (codes "B2") refl refl refl

team_results_test :
    resolve_team_results same_rune
      ((participant (codes "#A1") ∷ []) ∷ (participant (codes "#b2") ∷ []) ∷ [])
      "victory"
      (codes "B2")
    ≡ "defeat" ∷ "victory" ∷ []
unfolding resolve_team_results results_from discoverer_team opposite_result normalize_tag
    to_upper_rune any_where text_eq
team_results_test = refl
