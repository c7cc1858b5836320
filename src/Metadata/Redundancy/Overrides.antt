-- ===== src/Metadata/Redundancy/Overrides.antt =====
-- The overrides that are in force after a sequence of calls.
use vstack.Prelude.{
  ℕ, String, Option, none, some, List, [], ◌∷◌, ◌≡◌, refl, ap, ◌∙◌, ltb, Bool, true, false,
  Bool-cases, ◌==◌, eq_iff, text_key, if◌then◌else◌, arith,
}
use vstack.Prelude.Dict.{lookup, lookup-insert, lookup-erase}
use vstack.Metadata.Tables.{RedundancyMode, replication, erasure_coding}
use vstack.Metadata.Redundancy.{
  RedundancyManager, Config, parse_mode, set_manual_override, clear_manual_override, override_with,
  without_override, determine_redundancy_mode, stored_mode, by_popularity,
}

-- A call on the manager.
pub data Call : Type 0 where
  determine : (video_id : String) (view_count : ℕ) (manual_override : Option String) → Call
  set : (video_id : String) (mode : RedundancyMode) → Call
  clear : (video_id : String) → Call

-- The manager after a `determine_redundancy_mode` that may have raised.
abbrev pub left_by :
    {A : Type 0} → RedundancyManager → Option (A × RedundancyManager) → RedundancyManager
left_by m none = m
left_by m (some (a, m')) = m'

abbrev pub after : Call → RedundancyManager → RedundancyManager
after (determine video_id view_count manual_override) m =
    left_by m (determine_redundancy_mode video_id view_count manual_override m)
after (set video_id mode) m = set_manual_override video_id mode m
after (clear video_id) m = clear_manual_override video_id m

abbrev pub run : List Call → RedundancyManager → RedundancyManager
run [] m = m
run (c ∷ calls) m = run calls (after c m)

-- What an override text asks for, if it names a mode.
abbrev pub asked : Option String → Option RedundancyMode → Option RedundancyMode
asked none before = before
asked (some text) before =
    if text == "replication"
    then some replication
    else if text == "erasure_coding"
    then some erasure_coding
    else before

-- The override of one video, as a history of the calls: each call names a video, and for that
-- video the last word counts.
abbrev pub said : Call → String → Option RedundancyMode → Option RedundancyMode
said (determine v view_count manual_override) video before =
    if v == video then asked manual_override before else before
said (set v mode) video before = if v == video then some mode else before
said (clear v) video before = if v == video then none else before

abbrev pub history : List Call → String → Option RedundancyMode → Option RedundancyMode
history [] video before = before
history (c ∷ calls) video before = history calls video (said c video before)

-- The empty text names no mode.
empty_text :
    (text : String)
    → (text == "") ≡ true
    → ((text == "replication") ≡ false) × ((text == "erasure_coding") ≡ false)
empty_text text e = rw ((eq_iff text "").0 e) (refl, refl)

after-said :
    (c : Call) (video : String) (m : RedundancyManager)
    → lookup video (after c m).manual_overrides ≡ said c video (lookup video m.manual_overrides)
unfolding set_manual_override clear_manual_override determine_redundancy_mode without_override
    override_with parse_mode
after-said (determine v views none) video m = ground arith
after-said (determine v views (some text)) video m = ground (
  arith,
  empty_text text,
  lookup-insert v video replication m.manual_overrides,
  lookup-insert v video erasure_coding m.manual_overrides,
)
after-said (set v mode) video m = lookup-insert v video mode m.manual_overrides
after-said (clear v) video m = lookup-erase v video m.manual_overrides

history-run :
    (calls : List Call) (video : String) (m : RedundancyManager)
    → lookup video (run calls m).manual_overrides
      ≡ history calls video (lookup video m.manual_overrides)
history-run [] video m = refl
history-run (c ∷ calls) video m =
    history-run calls video (after c m) ∙ ap (history calls video) (after-said c video m)

-- No call changes the settings.
threshold-run :
    (calls : List Call) (m : RedundancyManager)
    → (run calls m).popularity_threshold ≡ m.popularity_threshold
unfolding set_manual_override clear_manual_override determine_redundancy_mode without_override
    override_with parse_mode
threshold-run [] m = refl
threshold-run (c ∷ calls) m = threshold-run calls (after c m) ∙ same c
  where
    same : (k : Call) → (after k m).popularity_threshold ≡ m.popularity_threshold
    same (determine v views none) = refl
    same (determine v views (some text)) = ground arith
    same (set v mode) = refl
    same (clear v) = refl

stored_mode_same :
    (views : ℕ) (m m' : RedundancyManager) (o : Option RedundancyMode)
    → m.popularity_threshold ≡ m'.popularity_threshold
    → stored_mode views m o ≡ stored_mode views m' o
unfolding stored_mode by_popularity
stored_mode_same views m m' none e = rw e refl
stored_mode_same views m m' (some mode) e = refl

-- The mode that a call without an override answers.
abbrev pub mode_of : Option ((RedundancyMode × Config) × RedundancyManager) → Option RedundancyMode
mode_of none = none
mode_of (some ((mode, config), m)) = some mode

-- The override in force, if there is one, and else copies for a popular video and shards for others.
abbrev pub mode_for : Option RedundancyMode → Bool → RedundancyMode
mode_for (some mode) is_popular = mode
mode_for none true = replication
mode_for none false = erasure_coding

mode_for_lem :
    (views : ℕ) (m : RedundancyManager) (o : Option RedundancyMode)
    → stored_mode views m o ≡ mode_for o (ltb m.popularity_threshold views)
unfolding stored_mode by_popularity
mode_for_lem views m none = ground (arith, Bool-cases (ltb m.popularity_threshold views))
mode_for_lem views m (some mode) = refl

-- After any calls, a request without an override is answered by the last override that was given
-- for that video and not cleared since, and where there is none, by replication if the video has more
-- views than the threshold and by erasure coding if not;
-- a text that names no mode, and calls for other videos, count for nothing.
pub determine_redundancy_mode-run :
    (calls : List Call) (video : String) (views : ℕ) (m : RedundancyManager)
    → mode_of (determine_redundancy_mode video views none (run calls m))
      ≡ some (
          mode_for
            (history calls video (lookup video m.manual_overrides))
            (ltb m.popularity_threshold views))
unfolding determine_redundancy_mode without_override
determine_redundancy_mode-run calls video views m = ap some (
    stored_mode_same views (run calls m) m (lookup video (run calls m).manual_overrides)
      (threshold-run calls m)
    ∙ ap (stored_mode views m) (history-run calls video m)
    ∙ mode_for_lem views m (history calls video (lookup video m.manual_overrides)))
