-- ===== src/Metadata/Database/Videos.antt =====
-- The status of a video, and its views.
use vstack.Prelude.{
  ℕ, ◌+◌, ◌≡◌, refl, sym, ◌∙◌, ap, ◌&&◌, ◌&&◌, String, Bool, true, false, some, List, [], ◌∷◌, ◌++◌,
  any, ◌==◌, number_key, text_key, eq_iff, if◌then◌else◌, arith, Bool-cases, inl, inr, ltb,
}
use vstack.Prelude.Table.{select, update, insert, select-update}
use vstack.Metadata.Tables.{Tables, VideoStatus, StatsRow, same_stats}
use vstack.Metadata.Connection.{
  Conn, Result, ok, raised, follow, ◌>>=◌, execute, query, pure, or_else, run_statement, written,
  next_fault, later_faults,
}
use vstack.Metadata.Connection.Saves.{save_lem, commit_only_lem}
use vstack.Metadata.Database.{
  set_video_status, update_video_status, videos_with_id, first_row, first_view, or_count,
  count_view, update_video_stats, get_video_popularity, views_of,
}

run_statement-durable :
    (b : Bool) (video_id : String) (status : VideoStatus) (c : Conn)
    → (run_statement b (set_video_status video_id status) c).1.durable ≡ c.durable
unfolding run_statement written set_video_status
run_statement-durable true video_id status c = refl
run_statement-durable false video_id status c = refl

follow-durable :
    (b : Bool) (r : Result (Unit {0})) (c : Conn) → (follow r (λ _. pure b) c).1.durable ≡ c.durable
unfolding follow pure
follow-durable b (ok u) c = refl
follow-durable b (raised e) c = refl

-- Whatever `update_video_status` returns, True included, it makes nothing durable: what would be
-- read after a restart is what was committed before.
pub update_video_status-durable :
    (video_id : String) (status : VideoStatus) (c : Conn)
    → (update_video_status video_id status c).1.durable ≡ c.durable
unfolding update_video_status or_else ◌>>=◌ query execute follow
update_video_status-durable video_id status c =
    let c' = record c { faults = later_faults c.faults } in
    let out = run_statement (next_fault c.faults) (set_video_status video_id status) c' in
    follow-durable (ltb 0 (videos_with_id video_id c.working)) out.0 out.1
    ∙ run_statement-durable (next_fault c.faults) video_id status c'

-- The count of a video in the statistics, by the rows.
abbrev views_in : String → List StatsRow → ℕ
views_in video_id rows = views_of (first_row (select (λ s. s.video_id == video_id) rows))

abbrev counted : String → ℕ → List StatsRow → List StatsRow
counted video_id now rows =
    update (λ s. s.video_id == video_id)
      (λ s. record s { view_count = s.view_count + 1; last_viewed = now }) rows

views_in-counted_same :
    (video_id : String) (now : ℕ) (rows : List StatsRow)
    → any (λ r. video_id == r.video_id) rows ≡ true
    → views_in video_id (counted video_id now rows) ≡ views_in video_id rows + 1
unfolding views_of first_row select update
views_in-counted_same video_id now [] h = ground arith
views_in-counted_same video_id now (s ∷ rows) h = elim (Bool-cases (s.video_id == video_id)) [
  | inl is ↦ rw (is, is) refl
  | inr isnt ↦
      rw (isnt, isnt)
        (views_in-counted_same video_id now rows
          (ground (arith, h, eq_iff video_id s.video_id, eq_iff s.video_id video_id)))
]

views_in-counted_other :
    (video_id other : String) (now : ℕ) (rows : List StatsRow)
    → (video_id == other) ≡ false
    → views_in other (counted video_id now rows) ≡ views_in other rows
views_in-counted_other video_id other now rows ne =
    ap (λ l. views_of (first_row l))
      (select-update (λ s. s.video_id == other) (λ s. s.video_id == video_id)
        (λ s. record s { view_count = s.view_count + 1; last_viewed = now }) rows
        (λ s is.
          ground
            (arith, eq_iff s.video_id video_id, eq_iff s.video_id other, eq_iff video_id other))
        (λ s is.
          ground
            (arith, eq_iff s.video_id video_id, eq_iff s.video_id other, eq_iff video_id other)))

views_in-append :
    (video_id other : String) (now : ℕ) (rows : List StatsRow)
    → any (λ r. video_id == r.video_id) rows ≡ false
    → views_in other (rows ++ first_view video_id now ∷ [])
      ≡ (if video_id == other then views_in other rows + 1 else views_in other rows)
unfolding views_of first_row select
views_in-append video_id other now [] h = ground arith
views_in-append video_id other now (s ∷ rows) h = elim (Bool-cases (s.video_id == other)) [
  | inl is ↦ rw (is) (
      ground
        (arith, h, is, eq_iff video_id s.video_id, eq_iff s.video_id other, eq_iff video_id other))
  | inr isnt ↦ rw (isnt) (views_in-append video_id other now rows (ground (arith, h)))
]

views_in-count :
    (video_id other : String) (now : ℕ) (rows : List StatsRow)
    → views_in other (or_count video_id now rows (insert same_stats (first_view video_id now) rows))
      ≡ (if video_id == other then views_in other rows + 1 else views_in other rows)
unfolding insert same_stats or_count
views_in-count video_id other now rows =
    elim (Bool-cases (any (λ r. video_id == r.video_id) rows)) [
      | inl there ↦ rw (there) (elim (Bool-cases (video_id == other)) [
        | inl same ↦
            rw (same) (
              rw (← (eq_iff video_id other).0 same) (views_in-counted_same video_id now rows there))
        | inr ne ↦ rw (ne) (views_in-counted_other video_id other now rows ne)
      ])
      | inr new ↦ rw (new) (views_in-append video_id other now rows new)
    ]

count_view_lem :
    (video_id : String) (now : ℕ) (t : Tables)
    → count_view video_id now t
      ≡ some (record t {
        video_stats =
            or_count video_id now t.video_stats
              (insert same_stats (first_view video_id now) t.video_stats);
      })
unfolding count_view
count_view_lem video_id now t = refl

count_view-popularity :
    (video_id other : String) (now : ℕ) (t t' : Tables)
    → count_view video_id now t ≡ some t'
    → get_video_popularity other t' ≡ (
        if video_id == other
        then get_video_popularity other t + 1
        else get_video_popularity other t)
unfolding count_view get_video_popularity
count_view-popularity video_id other now t t' e =
    ground (arith, e, views_in-count video_id other now t.video_stats)

-- A call of `update_video_stats` that reports success has counted one view of the video when it
-- was told to, and none of any other video: the popularity that is read afterwards, on this
-- connection or after a restart, says so.
pub update_video_stats-popularity :
    (video_id other : String) (increment : Bool) (c : Conn)
    → let (success, c') = update_video_stats video_id increment c in
      success ≡ true
      → (get_video_popularity other c'.working ≡ (
          if increment && (video_id == other)
          then get_video_popularity other c.working + 1
          else get_video_popularity other c.working))
        × (c'.durable ≡ c'.working)
unfolding update_video_stats pure ◌>>=◌ follow
update_video_stats-popularity video_id other true c h =
    let t = c.working in
    let rows =
      or_count video_id c.now t.video_stats
        (insert same_stats (first_view video_id c.now) t.video_stats) in
    let (now_working, now_durable, _) =
      save_lem (count_view video_id) true c (record t { video_stats = rows })
        (count_view_lem video_id c.now t) h in
    (
      ap (get_video_popularity other) now_working
          ∙ count_view-popularity video_id other c.now t (record t { video_stats = rows })
              (count_view_lem video_id c.now t),
      now_durable ∙ sym now_working,
    )
update_video_stats-popularity video_id other false c h =
    let same : (update_video_stats video_id false c).1.working ≡ c.working =
      (commit_only_lem true c h).0 in
    (ap (get_video_popularity other) same, (commit_only_lem true c h).1 ∙ sym same)
