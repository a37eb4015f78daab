-- ===== src/ForceExit/Queries/Frame.antt =====
-- What the queries of the subgraph keep, their readers keep.
use v3_keeper.Base.{
  ℕ, List, [], ◌∷◌, Option, none, some, Text, Keeps, Keeps-then, Keeps-pure, Keeps-raise, Keeps-if,
  keeps_rules, get, text_eq, key_error, or_raise, Keeps-or_raise, pos,
}
use v3_keeper.Graph.{Codec}
use v3_keeper.ForceExit.{ExitRequest, ExitRequestItem, int_eq, read_address, read_int}
use v3_keeper.ForceExit.Reading.{read_address-Keeps, read_int-Keeps, from_graph-Keeps}
use v3_keeper.ForceExit.Queries.{
  Floats, PositionItem, AllocatorItem, OsTokenItem, ForceGraph, disabled_liq_threshold,
  read_request, read_position, graph_get_leverage_positions, read_allocators, graph_get_allocators,
  graph_get_exit_requests_by_ids, read_ostoken_request, join_requests, graph_ostoken_exit_requests,
  first_owner, graph_get_leverage_position_owner,
}

-- The queries of the graph keep `R`.
pub record GraphKept {W : Type 0} (R : W → Type 0) (graph : ForceGraph W) : Type 0 where
  pub positions : (block_number : ℕ) → Keeps R (graph.positions block_number)
  pub allocators :
      (ltv : Text) (addresses : List Text) (block_number : ℕ)
      → Keeps R (graph.allocators ltv addresses block_number)
  pub ostoken_exit_requests :
      (ltv : Text) (block_number : ℕ) → Keeps R (graph.ostoken_exit_requests ltv block_number)
  pub exit_requests :
      (ids : List Text) (block_number : ℕ) → Keeps R (graph.exit_requests ids block_number)
  pub owners : (proxy : Text) → Keeps R (graph.owners proxy)

module _ {F W : Type 0} {R : W → Type 0} (codec : Codec) (floats : Floats F) (graph : ForceGraph W)
    (graph_kept : GraphKept R graph) where
  read_request-Keeps :
      (item : Option ExitRequestItem) → Keeps R (read_request codec floats graph item)
  read_request-Keeps none = Keeps-pure none
  read_request-Keeps (some item) = search (keeps_rules, from_graph-Keeps)

  read_position-Keeps : (item : PositionItem) → Keeps R (read_position codec floats graph item)
  unfolding read_position
  read_position-Keeps item = search (keeps_rules, read_request-Keeps) depth 20

  pub positions-Keeps :
      (block_number : ℕ) → Keeps R (graph_get_leverage_positions codec floats graph block_number)
  unfolding graph_get_leverage_positions
  positions-Keeps block_number = search (keeps_rules, GraphKept.positions, read_position-Keeps)

  read_allocators-Keeps :
      (items : List AllocatorItem) → Keeps R (read_allocators codec floats graph items)
  unfolding read_allocators
  read_allocators-Keeps [] = Keeps-pure []
  read_allocators-Keeps (item ∷ items) =
      Keeps-then (read_int codec item.liq_threshold_percent) _
        (read_int-Keeps codec item.liq_threshold_percent)
        (λ threshold.
          Keeps-if (int_eq threshold (pos disabled_liq_threshold)) _ _ (read_allocators-Keeps items)
            (Keeps-then (read_address codec item.address) _ (read_address-Keeps codec item.address)
              (λ address.
                Keeps-then (read_allocators codec floats graph items) _
                  (read_allocators-Keeps items) (λ addresses. Keeps-pure (address ∷ addresses)))))

  pub allocators-Keeps :
      (ltv : F) (addresses : List Text) (block_number : ℕ)
      → Keeps R (graph_get_allocators codec floats graph ltv addresses block_number)
  unfolding graph_get_allocators
  allocators-Keeps ltv addresses block_number =
      search (keeps_rules, GraphKept.allocators, read_allocators-Keeps)

  exit_requests-Keeps :
      (ids : List Text) (block_number : ℕ)
      → Keeps R (graph_get_exit_requests_by_ids codec floats graph ids block_number)
  unfolding graph_get_exit_requests_by_ids
  exit_requests-Keeps ids block_number =
      search (keeps_rules, GraphKept.exit_requests, from_graph-Keeps)

  ostoken_request-Keeps :
      (item : OsTokenItem) (request : ExitRequest)
      → Keeps R (read_ostoken_request codec floats graph item request)
  unfolding read_ostoken_request
  ostoken_request-Keeps item request = search keeps_rules depth 20

  join_requests-Keeps :
      (requests : List (Text × ExitRequest)) (items : List OsTokenItem)
      → Keeps R (join_requests codec floats graph requests items)
  unfolding join_requests
  join_requests-Keeps requests [] = Keeps-pure []
  join_requests-Keeps requests (item ∷ items) =
      Keeps-then (or_raise key_error (get item.id requests)) _
        (Keeps-or_raise key_error (get item.id requests))
        (λ request. Keeps-if request.is_claimed _ _ (join_requests-Keeps requests items) (
          Keeps-then (read_ostoken_request codec floats graph item request) _
            (ostoken_request-Keeps item request)
            (λ joined.
              Keeps-then (join_requests codec floats graph requests items) _
                (join_requests-Keeps requests items) (λ rest. Keeps-pure (joined ∷ rest)))))

  pub ostoken_requests-Keeps :
      (ltv : F) (block_number : ℕ)
      → Keeps R (graph_ostoken_exit_requests codec floats graph ltv block_number)
  unfolding graph_ostoken_exit_requests
  ostoken_requests-Keeps ltv block_number =
      search
        (keeps_rules, GraphKept.ostoken_exit_requests, exit_requests-Keeps, join_requests-Keeps)
        depth 20

  first_owner-Keeps : (users : List Text) → Keeps R (first_owner codec floats graph users)
  first_owner-Keeps [] = Keeps-raise _
  first_owner-Keeps (user ∷ users) = read_address-Keeps codec user

  pub owner-Keeps :
      (proxy : Text) → Keeps R (graph_get_leverage_position_owner codec floats graph proxy)
  unfolding graph_get_leverage_position_owner
  owner-Keeps proxy = search (keeps_rules, GraphKept.owners, first_owner-Keeps)
