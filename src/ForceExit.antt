-- ===== src/ForceExit.antt =====
-- force_exit/typings.py and the data that its modules share. Floats are a type with the operations that the code
-- uses; a call that is encoded for a contract is a value that tells the function and its arguments.
pub mod Queries
pub mod Execution
pub mod Service
pub mod Reading
use v3_keeper.Base.{
  ℕ, Bool, false, ◌&&◌, List, [], ◌∷◌, ◌++◌, Option, none, some, ℤ, pos, negsuc, int_of, Text, M,
  pure, raise, or_raise, ◌>>=◌, ◌>>◌, then_do, value_error, Eq, ◌==◌,
}
use v3_keeper.Graph.{Codec}

pub record ExitRequest : Type 0 where
  pub id : Text
  pub vault : Text
  pub position_ticket : ℤ
  pub timestamp : ℤ
  pub exit_queue_index : Option ℤ
  pub is_claimed : Bool
  pub is_claimable : Bool
  pub exited_assets : ℤ
  pub total_assets : ℤ

abbrev pub int_eq : ℤ → ℤ → Bool
int_eq (pos a) (pos b) = a == b
int_eq (negsuc a) (negsuc b) = a == b
int_eq a b = false

abbrev pub is_fully_claimable : ExitRequest → Bool
is_fully_claimable r = r.is_claimable && int_eq r.exited_assets r.total_assets

pub record LeveragePosition (F : Type 0) : Type 0 where
  pub user : Text
  pub vault : Text
  pub proxy : Text
  pub borrow_ltv : F
  pub exit_request : Option ExitRequest

-- `LeveragePosition.id`
abbrev pub position_id : {F : Type 0} → LeveragePosition F → Text
position_id p = p.vault ++ (b'-' ∷ p.user)

-- `ltv` is the text of the graph's answer.
pub record OsTokenExitRequest : Type 0 where
  pub id : Text
  pub vault : Text
  pub owner : Text
  pub ltv : Text
  pub exit_request : ExitRequest

-- An exit request in an answer of the graph.
pub record ExitRequestItem : Type 0 where
  pub id : Text
  pub vault : Text
  pub position_ticket : Text
  pub timestamp : Text
  pub exit_queue_index : Option Text
  pub is_claimed : Bool
  pub is_claimable : Bool
  pub exited_assets : Text
  pub total_assets : Text

abbrev pub read_index : Option Text → Option (Option ℤ)
read_index none = some none
read_index (some t) = elim (int_of t) [ none ↦ none | some n ↦ some (some n) ]

module _ (codec : Codec) where
  abbrev pub read_int : {W : Type 0} → Text → M W ℤ
  read_int t = or_raise (value_error "invalid literal for int()") (int_of t)

  abbrev pub read_address : {W : Type 0} → Text → M W Text
  read_address t = or_raise (value_error "invalid address") (codec.to_checksum_address t)

  -- `ExitRequest.from_graph`
  unfoldable pub from_graph : {W : Type 0} → ExitRequestItem → M W ExitRequest
  from_graph item = do
    exit_queue_index ←
        or_raise (value_error "invalid literal for int()") (read_index item.exit_queue_index)
    vault ← read_address item.vault
    position_ticket ← read_int item.position_ticket
    timestamp ← read_int item.timestamp
    exited_assets ← read_int item.exited_assets
    total_assets ← read_int item.total_assets
    pure (record {
      id = item.id;
      vault = vault;
      position_ticket = position_ticket;
      timestamp = timestamp;
      exit_queue_index = exit_queue_index;
      is_claimed = item.is_claimed;
      is_claimable = item.is_claimable;
      exited_assets = exited_assets;
      total_assets = total_assets;
    })
