-- ===== src/Metadata/Database/Fragments.antt =====
-- metadata-service/database.py: the fragments of a chunk.
use vstack.Prelude.{
  ℕ, String, Bool, true, false, ◌&&◌, Option, none, some, List, ◌==◌, number_key, text_key,
}
use vstack.Prelude.Table.{order_by, select, insert}
use vstack.Metadata.Tables.{Text, ReplicaStatus, FragmentRow, Tables, same_fragment}
use vstack.Metadata.Connection.{
  Conn, key_error, M, pure, raise, ◌>>=◌, ◌>>◌, Statement, execute, commit, for_each, or_else,
  checked,
}

abbrev pub is_active : ReplicaStatus → Bool
is_active ReplicaStatus.active = true
is_active ReplicaStatus.pending = false
is_active ReplicaStatus.failed = false

-- A fragment as the request describes it; `node_url` may be missing from the dict.
pub record FragmentMetadata : Type 0 where
  pub fragment_id : String
  pub chunk_id : String
  pub fragment_index : ℕ
  pub node_url : Option String
  pub size_bytes : ℕ
  pub checksum : Text

abbrev pub fragment_row : FragmentMetadata → String → ℕ → FragmentRow
fragment_row frag node_url now = record {
  fragment_id = frag.fragment_id;
  chunk_id = frag.chunk_id;
  fragment_index = frag.fragment_index;
  node_url = node_url;
  size_bytes = frag.size_bytes;
  checksum = frag.checksum;
  status = ReplicaStatus.active;
  created_at = now;
}

unfoldable pub insert_fragment : FragmentMetadata → String → Statement
unfolding insert
insert_fragment frag node_url now t =
    checked (insert same_fragment (fragment_row frag node_url now) t.chunk_fragments)
      (λ rows. record t { chunk_fragments = rows })

-- `frag['node_url']`
unfoldable pub node_of : Option String → M String
unfolding raise pure
node_of none = raise key_error
node_of (some node_url) = pure node_url

unfoldable pub store_fragment : FragmentMetadata → M (Unit {0})
unfolding insert_fragment node_of
store_fragment frag = do node_url ← node_of frag.node_url; execute (insert_fragment frag node_url)

unfoldable pub store_chunk_fragments : List FragmentMetadata → Conn → Bool × Conn
unfolding store_fragment
store_chunk_fragments fragments_metadata =
    or_else false do for_each store_fragment fragments_metadata; commit; pure true

abbrev pub index_of : FragmentRow → ℕ
index_of f = f.fragment_index

unfoldable pub get_chunk_fragments : String → Tables → List FragmentRow
unfolding select
get_chunk_fragments chunk_id t =
    order_by index_of (select (λ f. f.chunk_id == chunk_id && is_active f.status) t.chunk_fragments)
