-- ===== src/Metadata/Redundancy/Policy.antt =====
-- metadata-service/redundancy_manager.py: recommended migrations, and the nodes of a mode.
use vstack.Prelude.{ℕ, ◌+◌, ◌≤◌, ◌≡◌, ◌≢◌, String, none, some, arith, text_key}
use vstack.Metadata.Tables.{RedundancyMode, replication, erasure_coding}
use vstack.Metadata.Redundancy.{
  RedundancyManager, Config, copies_of, shards_of, config_of, new_manager, by_popularity,
  recommend_migration, get_required_nodes, can_tolerate_failures,
}

-- A recommended mode is another one than the present mode and the one that the popularity alone
-- would choose, and once it is followed nothing is recommended for as many views, whatever the
-- trend.
pub recommend_migration_settles :
    (current target : RedundancyMode) (views : ℕ) (trend trend' : String) (m : RedundancyManager)
    → recommend_migration current views trend m ≡ some target
    → (by_popularity views m ≡ target)
      × (current ≢ target)
      × (recommend_migration target views trend' m ≡ none)
unfolding recommend_migration by_popularity
recommend_migration_settles replication target views trend trend' m e = ground arith
recommend_migration_settles erasure_coding target views trend trend' m e = ground arith

-- The nodes that are enough to read a chunk, by the configuration.
abbrev pub enough_to_read : Config → ℕ
enough_to_read (copies_of copies) = 1
enough_to_read (shards_of data_shards parity_shards total_shards min_shards) = min_shards

-- With at least one copy, the nodes that a mode requires are those that may fail and those that
-- its configuration needs to read a chunk.
pub get_required_nodes-eq :
    (mode : RedundancyMode) (threshold factor data_shards parity_shards : ℕ)
    → 1 ≤ factor
    → let m = new_manager threshold factor data_shards parity_shards in
      get_required_nodes mode m ≡ can_tolerate_failures mode m + enough_to_read (config_of mode m)
unfolding get_required_nodes can_tolerate_failures config_of new_manager
get_required_nodes-eq replication threshold factor data_shards parity_shards h = omega arith
get_required_nodes-eq erasure_coding threshold factor data_shards parity_shards h = omega arith
