-- ===== src/Metadata/Redundancy.antt =====
-- metadata-service/redundancy_manager.py: replication or erasure coding for a video, and the
-- policy on top of it. The log lines, the `description` texts and the figures that are computed in
-- floating point are left out.
pub mod Overrides
pub mod Policy
use vstack.Prelude.{
  ℕ, ◌+◌, ◌-◌, ◌*◌, String, Bool, true, false, ◌&&◌, Option, none, some, ltb, ◌==◌, text_key,
  if◌then◌else◌, [],
}
use vstack.Prelude.Dict.{Dict, lookup, insert, erase}
use vstack.Metadata.Tables.{RedundancyMode, replication, erasure_coding}

pub record RedundancyManager : Type 0 where
  pub popularity_threshold : ℕ
  pub replication_factor : ℕ
  pub erasure_data_shards : ℕ
  pub erasure_parity_shards : ℕ
  pub erasure_total_shards : ℕ
  pub manual_overrides : Dict String RedundancyMode

-- `RedundancyManager(...)`
unfoldable pub new_manager : (threshold factor data_shards parity_shards : ℕ) → RedundancyManager
new_manager threshold factor data_shards parity_shards = record {
  popularity_threshold = threshold;
  replication_factor = factor;
  erasure_data_shards = data_shards;
  erasure_parity_shards = parity_shards;
  erasure_total_shards = data_shards + parity_shards;
  manual_overrides = [];
}

-- The dict that describes a mode.
pub data Config : Type 0 where
  copies_of : (copies : ℕ) → Config
  shards_of : (data_shards parity_shards total_shards min_shards_for_recovery : ℕ) → Config

-- `RedundancyMode(text)`, which raises ValueError for any other text
unfoldable pub parse_mode : String → Option RedundancyMode
parse_mode text =
    if text == "replication"
    then some replication
    else if text == "erasure_coding"
    then some erasure_coding
    else none

unfoldable pub config_of : RedundancyMode → RedundancyManager → Config
config_of replication m = copies_of m.replication_factor
config_of erasure_coding m =
    shards_of m.erasure_data_shards m.erasure_parity_shards m.erasure_total_shards
      m.erasure_data_shards

unfoldable pub by_popularity : ℕ → RedundancyManager → RedundancyMode
by_popularity view_count m =
    if ltb m.popularity_threshold view_count then replication else erasure_coding

-- `set_manual_override`
unfoldable pub set_manual_override : String → RedundancyMode → RedundancyManager → RedundancyManager
unfolding insert
set_manual_override video_id mode m = record m {
  manual_overrides = insert video_id mode m.manual_overrides;
}

-- `clear_manual_override`
unfoldable pub clear_manual_override : String → RedundancyManager → RedundancyManager
unfolding erase
clear_manual_override video_id m = record m { manual_overrides = erase video_id m.manual_overrides }

-- The branches without a manual override in the call.
unfoldable pub stored_mode : ℕ → RedundancyManager → Option RedundancyMode → RedundancyMode
unfolding by_popularity
stored_mode view_count m none = by_popularity view_count m
stored_mode view_count m (some mode) = mode

-- The branch of a manual override, which is stored if it is the name of a mode.
unfoldable pub override_with :
    String
    → Option RedundancyMode
    → RedundancyManager
    → Option ((RedundancyMode × Config) × RedundancyManager)
unfolding set_manual_override config_of
override_with video_id none m = none
override_with video_id (some mode) m =
    some ((mode, config_of mode m), set_manual_override video_id mode m)

unfoldable pub without_override :
    String → ℕ → RedundancyManager → Option ((RedundancyMode × Config) × RedundancyManager)
unfolding stored_mode config_of
without_override video_id view_count m =
    let mode = stored_mode view_count m (lookup video_id m.manual_overrides) in
    some ((mode, config_of mode m), m)

-- `determine_redundancy_mode`; no result where it raises. `if manual_override:` is false for None
-- and for the empty text.
unfoldable pub determine_redundancy_mode :
    String
    → ℕ
    → Option String
    → RedundancyManager
    → Option ((RedundancyMode × Config) × RedundancyManager)
unfolding override_with without_override parse_mode
determine_redundancy_mode video_id view_count none m = without_override video_id view_count m
determine_redundancy_mode video_id view_count (some text) m =
    if text == ""
    then without_override video_id view_count m
    else override_with video_id (parse_mode text) m

unfoldable pub get_required_nodes : RedundancyMode → RedundancyManager → ℕ
get_required_nodes replication m = m.replication_factor
get_required_nodes erasure_coding m = m.erasure_total_shards

-- A negative count, for a factor of 0, is read as 0.
unfoldable pub can_tolerate_failures : RedundancyMode → RedundancyManager → ℕ
can_tolerate_failures replication m = m.replication_factor - 1
can_tolerate_failures erasure_coding m = m.erasure_parity_shards

abbrev pub is_replication : RedundancyMode → Bool
is_replication replication = true
is_replication erasure_coding = false

-- `RedundancyPolicy.recommend_migration`; `current_views < threshold * 0.5` is an exact
-- comparison, as half of a number is exact in floating point
unfoldable pub recommend_migration :
    RedundancyMode → ℕ → String → RedundancyManager → Option RedundancyMode
recommend_migration replication views trend m =
    if ltb (2 * views) m.popularity_threshold && trend == "decreasing"
    then some erasure_coding
    else none
recommend_migration erasure_coding views trend m =
    if ltb m.popularity_threshold views && trend == "increasing" then some replication else none

-- `RedundancyPolicy.evaluate_policy`, by the two entries of the metadata that it reads
unfoldable pub views_or_zero : Option ℕ → ℕ
views_or_zero none = 0
views_or_zero (some n) = n

unfoldable pub evaluate_policy :
    String
    → Option ℕ
    → Option String
    → RedundancyManager
    → Option ((RedundancyMode × Config) × RedundancyManager)
unfolding views_or_zero determine_redundancy_mode
evaluate_policy video_id view_count redundancy_override m =
    determine_redundancy_mode video_id (views_or_zero view_count) redundancy_override m
