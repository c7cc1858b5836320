-- ===== src/Client/Player/Results.antt =====
-- The ids under which the results of downloads are kept.
use vstack.Prelude.{String, Option, List, [], ◌∷◌, ◌==◌, text_key, Bool-cases, inl, inr}
use vstack.Prelude.Dict.{Dict, insert}
use vstack.Client.Buffer.{Bytes}
use vstack.Client.Scheduler.{ChunkScheduler, download_chunk}
use vstack.Client.Player.{Surroundings, WantedChunk, download_chunks}

module _ (Q : String → Type 0) where
  abbrev pub AllIds : Dict String (Option Bytes) → Type 0
  AllIds [] = Unit
  AllIds ((id, o) ∷ results) = Q id × AllIds results

  abbrev pub AllWanted : List WantedChunk → Type 0
  AllWanted [] = Unit
  AllWanted (info ∷ infos) = Q info.chunk_id × AllWanted infos

  insert-AllIds :
      (id : String) (o : Option Bytes) (results : Dict String (Option Bytes))
      → Q id
      → AllIds results
      → AllIds (insert id o results)
  unfolding insert
  insert-AllIds id o [] q h = (q, tt)
  insert-AllIds id o ((j, r) ∷ results) q h = elim (Bool-cases (j == id)) [
    | inl e ↦ rw e h
    | inr e ↦ rw e (h.0, insert-AllIds id o results q h.1)
  ]

  pub download_chunks-AllIds :
      (s : Surroundings) (infos : List WantedChunk) (results : Dict String (Option Bytes))
      (t : ChunkScheduler)
      → AllWanted infos
      → AllIds results
      → AllIds (download_chunks s infos results t).0
  unfolding download_chunks
  download_chunks-AllIds s [] results t w h = h
  download_chunks-AllIds s (info ∷ infos) results t w h =
      let (r, t') =
        download_chunk (s.net info.chunk_id) info.chunk_id info.replicas s.max_retries t in
      download_chunks-AllIds s infos (insert info.chunk_id r results) t' w.1
        (insert-AllIds info.chunk_id r results w.0 h)
