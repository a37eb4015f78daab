-- ===== src/ForceExit/Queries.antt =====
-- force_exit/graph.py: what the queries of the subgraph are turned into.
pub mod Claims
pub mod Frame
use v3_keeper.Base.{
  ℕ, ◌^◌, ◌-◌, Bool, true, false, not, length, ◌==◌, if◌then◌else◌, List, [], ◌∷◌, map, Option,
  none, some, ℤ, pos, int_of, Text, text_eq, get, put, M, pure, raise, or_raise, ◌>>=◌, ◌>>◌,
  then_do, traverse, value_error, key_error, index_error,
}
use v3_keeper.Transaction.Rejection.{to_lower}
use v3_keeper.Graph.{Codec}
use v3_keeper.ForceExit.{
  ExitRequest, LeveragePosition, OsTokenExitRequest, ExitRequestItem, int_eq, read_address,
  read_int, from_graph,
}

-- The numbers that Python's `float` is used for, and the operations on them.
pub record Floats (F : Type 0) : Type 0 where
  pub of_text : Text → Option F
  pub of_wad : ℤ → F
  pub gt : F → F → Bool
  pub sub : F → F → F
  pub mul : F → F → F
  pub str : F → Text

pub record PositionItem : Type 0 where
  pub user : Text
  pub proxy : Text
  pub borrow_ltv : Text
  pub vault : Text
  pub exit_request : Option ExitRequestItem

pub record AllocatorItem : Type 0 where
  pub address : Text
  pub liq_threshold_percent : Text

pub record OsTokenItem : Type 0 where
  pub id : Text
  pub owner : Text
  pub ltv : Text
  pub vault : Text

-- The answers of the queries, all pages of each.
pub record ForceGraph (W : Type 0) : Type 0 where
  pub positions : ℕ → M W (List PositionItem)
  pub allocators : Text → List Text → ℕ → M W (List AllocatorItem)
  pub ostoken_exit_requests : Text → ℕ → M W (List OsTokenItem)
  pub exit_requests : List Text → ℕ → M W (List ExitRequestItem)
  pub owners : Text → M W (List Text)

abbrev pub disabled_liq_threshold : ℕ
disabled_liq_threshold = 2 ^ 64 - 1

module _ {F W : Type 0} (codec : Codec) (floats : Floats F) (graph : ForceGraph W) where
  abbrev pub read_request : Option ExitRequestItem → M W (Option ExitRequest)
  read_request none = pure none
  read_request (some item) = do request ← from_graph codec item; pure (some request)

  pub read_position : PositionItem → M W (LeveragePosition F)
  read_position item = do
    vault ← read_address codec item.vault
    user ← read_address codec item.user
    proxy ← read_address codec item.proxy
    borrow_ltv ←
        or_raise (value_error "could not convert string to float") (floats.of_text item.borrow_ltv)
    exit_request ← read_request item.exit_request
    pure (record {
      user = user;
      vault = vault;
      proxy = proxy;
      borrow_ltv = borrow_ltv;
      exit_request = exit_request;
    })

  unfoldable pub graph_get_leverage_positions : ℕ → M W (List (LeveragePosition F))
  unfolding read_position
  graph_get_leverage_positions block_number = do
    response ← graph.positions block_number
    traverse read_position response

  -- An allocator of a vault whose liquidation is disabled is left out.
  pub read_allocators : List AllocatorItem → M W (List Text)
  read_allocators [] = pure []
  read_allocators (item ∷ items) = do
    threshold ← read_int codec item.liq_threshold_percent
    if int_eq threshold (pos disabled_liq_threshold) then read_allocators items else (do
      address ← read_address codec item.address
      addresses ← read_allocators items
      pure (address ∷ addresses))

  unfoldable pub graph_get_allocators : F → List Text → ℕ → M W (List Text)
  unfolding read_allocators
  graph_get_allocators ltv addresses block_number = do
    response ← graph.allocators (floats.str ltv) (map (map to_lower) addresses) block_number
    read_allocators response

  unfoldable pub graph_get_exit_requests_by_ids : List Text → ℕ → M W (List ExitRequest)
  graph_get_exit_requests_by_ids ids block_number = do
    response ← graph.exit_requests ids block_number
    traverse (from_graph codec) response

  -- `{exit_req.id: exit_req for exit_req in exit_requests}`, onto what is there.
  pub by_id : List ExitRequest → List (Text × ExitRequest) → List (Text × ExitRequest)
  by_id [] requests = requests
  by_id (r ∷ rs) requests = by_id rs (put r.id r requests)

  pub read_ostoken_request : OsTokenItem → ExitRequest → M W OsTokenExitRequest
  read_ostoken_request item request = do
    vault ← read_address codec item.vault
    owner ← read_address codec item.owner
    pure (record {
      id = item.id;
      vault = vault;
      owner = owner;
      ltv = item.ltv;
      exit_request = request;
    })

  -- The loop that joins the two answers; a claimed request is left out.
  pub join_requests : List (Text × ExitRequest) → List OsTokenItem → M W (List OsTokenExitRequest)
  unfolding read_ostoken_request
  join_requests requests [] = pure []
  join_requests requests (item ∷ items) = do
    request ← or_raise key_error (get item.id requests)
    if request.is_claimed then join_requests requests items else (do
      joined ← read_ostoken_request item request
      rest ← join_requests requests items
      pure (joined ∷ rest))

  unfoldable pub graph_ostoken_exit_requests : F → ℕ → M W (List OsTokenExitRequest)
  unfolding by_id join_requests
  graph_ostoken_exit_requests ltv block_number = do
    response ← graph.ostoken_exit_requests (floats.str ltv) block_number
    if length response == 0 then pure [] else do
      exit_requests ← graph_get_exit_requests_by_ids (map (λ i. i.id) response) block_number
      join_requests (by_id exit_requests []) response

  abbrev pub first_owner : List Text → M W Text
  first_owner [] = raise index_error
  first_owner (user ∷ users) = read_address codec user

  unfoldable pub graph_get_leverage_position_owner : Text → M W Text
  graph_get_leverage_position_owner proxy = do
    users ← graph.owners (map to_lower proxy)
    first_owner users
