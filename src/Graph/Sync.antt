-- ===== src/Graph/Sync.antt =====
-- When the graph node counts as synced.
use v3_keeper.Base.{
  ℕ, ◌≤◌, ◌≡◌, refl, ◌↔◌, leb, leb→le, true, Bool-cases, inl, inr, is_exception, Exn,
  connection_error, done, raised, arith,
}
use v3_keeper.Graph.{
  GraphNode, BlockIdentifier, execution_block, compare_blocks, check_for_graph_node_sync_to_block,
}

module _ {W : Type 0} (node : GraphNode W) where
  compare_blocks_iff : (g n : ℕ) (w : W) → (compare_blocks node g n w ≡ done tt w) ↔ (n ≤ g)
  compare_blocks_iff g n w = elim (Bool-cases (leb n g)) [
    | inl synced ↦ rw synced (λ _. leb→le n g synced, λ _. refl)
    | inr behind ↦ rw behind (λ h. absurd (ground (arith, h)), λ h. absurd (ground (arith, h)))
  ]

  -- If both nodes answer, the check returns exactly if the graph's block is not behind the execution node's.
  pub check_for_graph_node_sync_to_block_iff :
      (block : BlockIdentifier) (g n : ℕ) (u v w : W)
      → node.latest_block u ≡ done g v
      → execution_block node block v ≡ done n w
      → (check_for_graph_node_sync_to_block node block u ≡ done tt w) ↔ (n ≤ g)
  unfolding check_for_graph_node_sync_to_block
  check_for_graph_node_sync_to_block_iff block g n u v w latest execution =
      rw (latest, execution) (compare_blocks_iff g n w)

  -- If the graph node raises an `Exception`, the check raises `ConnectionError`.
  pub check_for_graph_node_sync_to_block_unavailable :
      (block : BlockIdentifier) (e : Exn) (u v : W)
      → node.latest_block u ≡ raised e v
      → is_exception e ≡ true
      → check_for_graph_node_sync_to_block node block u
        ≡ raised (connection_error "The graph node is not available") v
  unfolding check_for_graph_node_sync_to_block
  check_for_graph_node_sync_to_block_unavailable block e u v latest ordinary =
      rw (latest, ordinary) refl
