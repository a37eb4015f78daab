-- ===== src/ForceExit/Queries/Claims.antt =====
-- What the requests that are joined from the two answers have.
use v3_keeper.Base.{
  ℕ, ◌==◌, ◌≡◌, refl, Bool, true, false, Bool-cases, inl, inr, length, if◌then◌else◌, List, [], ◌∷◌,
  map, Text, text_eq, get, put, All, All-put, All-get, Option-cases, done, Post, Post-then_do,
  Post-any, Post-done, pure, ◌>>=◌,
}
use v3_keeper.Graph.{Codec}
use v3_keeper.ForceExit.{ExitRequest, OsTokenExitRequest, read_address}
use v3_keeper.ForceExit.Queries.{
  Floats, ForceGraph, OsTokenItem, by_id, read_ostoken_request, join_requests,
  graph_get_exit_requests_by_ids, graph_ostoken_exit_requests,
}

-- A request is keyed by its identifier.
abbrev IsKeyed : Text × ExitRequest → Type 0
IsKeyed e = e.0 ≡ e.1.id

by_id-IsKeyed :
    {F W : Type 0} (codec : Codec) (floats : Floats F) (graph : ForceGraph W)
    (rs : List ExitRequest) (requests : List (Text × ExitRequest))
    → All IsKeyed requests
    → All IsKeyed (by_id codec floats graph rs requests)
unfolding by_id
by_id-IsKeyed codec floats graph [] requests h = h
by_id-IsKeyed codec floats graph (r ∷ rs) requests h =
    by_id-IsKeyed codec floats graph rs (put r.id r requests)
      (All-put IsKeyed r.id r requests refl h)

-- An unclaimed request, joined to the exit request of the same identifier.
abbrev pub IsJoined : OsTokenExitRequest → Type 0
IsJoined r = (r.exit_request.is_claimed ≡ false) × (r.id ≡ r.exit_request.id)

module _ {F W : Type 0} (codec : Codec) (floats : Floats F) (graph : ForceGraph W) where
  read_ostoken_request-IsJoined :
      (item : OsTokenItem) (r : ExitRequest) (w : W)
      → r.is_claimed ≡ false
      → item.id ≡ r.id
      → Post
          (λ j _. IsJoined j)
          (λ _ _. Unit {0})
          (read_ostoken_request codec floats graph item r w)
  unfolding read_ostoken_request
  read_ostoken_request-IsJoined item r w free keyed =
      Post-then_do (λ _ _. Unit {0}) (λ j _. IsJoined j) (λ _ _. Unit {0})
        (read_address codec item.vault w) _ (Post-any (read_address codec item.vault w))
        (λ vault v _.
          Post-then_do (λ _ _. Unit {0}) (λ j _. IsJoined j) (λ _ _. Unit {0})
            (read_address codec item.owner v) _ (Post-any (read_address codec item.owner v))
            (λ owner u _. (free, keyed)))

  -- The rest of a round, given that the rounds after it are right.
  round-IsJoined :
      (requests : List (Text × ExitRequest)) (item : OsTokenItem) (items : List OsTokenItem)
      (r : ExitRequest) (b : Bool) (w : W)
      → r.is_claimed ≡ b
      → item.id ≡ r.id
      → ((v : W)
          → Post
              (λ rs _. All IsJoined rs)
              (λ _ _. Unit {0})
              (join_requests codec floats graph requests items v))
      → Post
          (λ rs _. All IsJoined rs)
          (λ _ _. Unit {0})
          ((if b then join_requests codec floats graph requests items else (do
            joined ← read_ostoken_request codec floats graph item r
            rest ← join_requests codec floats graph requests items
            pure (joined ∷ rest)))
            w)
  round-IsJoined requests item items r true w claimed keyed rest = rest w
  round-IsJoined requests item items r false w free keyed rest =
      Post-then_do (λ j _. IsJoined j) (λ rs _. All IsJoined rs) (λ _ _. Unit {0})
        (read_ostoken_request codec floats graph item r w) _
        (read_ostoken_request-IsJoined item r w free keyed)
        (λ joined v one.
          Post-then_do (λ rs _. All IsJoined rs) (λ rs _. All IsJoined rs) (λ _ _. Unit {0})
            (join_requests codec floats graph requests items v) _ (rest v)
            (λ others u all. (one, all)))

  join_requests-IsJoined :
      (requests : List (Text × ExitRequest)) (items : List OsTokenItem) (w : W)
      → All IsKeyed requests
      → Post
          (λ rs _. All IsJoined rs)
          (λ _ _. Unit {0})
          (join_requests codec floats graph requests items w)
  unfolding join_requests
  join_requests-IsJoined requests [] w h = tt
  join_requests-IsJoined requests (item ∷ items) w h = elim (Option-cases (get item.id requests)) [
    | inl missing ↦ rw missing tt
    | inr (r, found) ↦ rw found (
        round-IsJoined requests item items r r.is_claimed w refl
          (All-get IsKeyed item.id requests h found)
          (λ v. join_requests-IsJoined requests items v h))
  ]

  -- Whatever the graph answers, each osToken exit request that is returned is unclaimed, and holds the
  -- exit request of its own identifier.
  pub graph_ostoken_exit_requests-IsJoined :
      (ltv : F) (block_number : ℕ) (w v : W) (rs : List OsTokenExitRequest)
      → graph_ostoken_exit_requests codec floats graph ltv block_number w ≡ done rs v
      → All IsJoined rs
  unfolding graph_ostoken_exit_requests
  graph_ostoken_exit_requests-IsJoined ltv block_number w v rs h =
      Post-done (λ rs _. All IsJoined rs) (λ _ _. Unit {0}) _ rs v
        (Post-then_do (λ _ _. Unit {0}) (λ rs _. All IsJoined rs) (λ _ _. Unit {0})
          (graph.ostoken_exit_requests (floats.str ltv) block_number w) _
          (Post-any (graph.ostoken_exit_requests (floats.str ltv) block_number w))
          (λ response u _. elim (Bool-cases (length response == 0)) [
            | inl empty ↦ rw empty tt
            | inr some_items ↦ rw some_items (
                Post-then_do (λ _ _. Unit {0}) (λ rs _. All IsJoined rs) (λ _ _. Unit {0})
                  (graph_get_exit_requests_by_ids codec floats graph (map (λ i. i.id) response)
                    block_number u)
                  _
                  (Post-any (
                    graph_get_exit_requests_by_ids codec floats graph (map (λ i. i.id) response)
                      block_number u))
                  (λ requests t _.
                    join_requests-IsJoined (by_id codec floats graph requests []) response t
                      (by_id-IsKeyed codec floats graph requests [] tt)))
          ]))
        h
