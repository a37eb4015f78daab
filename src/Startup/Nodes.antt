-- ===== src/Startup/Nodes.antt =====
-- When the loops over the nodes end.
use v3_keeper.Base.{
  ℕ, zero, suc, ◌-◌, ◌≤◌, ◌≡◌, refl, Bool, true, Bool-cases, inl, inr, List, [], ◌∷◌, Text, M, done,
  traverse, arith,
}
use v3_keeper.Startup.{Clients, any_true, await_nodes}

module _ {W : Type 0} (clients : Clients W) where
  -- The loop, where the rounds that are still to come before a node is up are counted.
  module _ (check : Text → M W Bool) (left : W → ℕ)
      (answers : (endpoint : Text) (w : W)
        → (b : Bool) × (v : W) × (check endpoint w ≡ done b v) × (left v ≤ left w))
      (pauses : (w : W) → (v : W) × (clients.sleep 10 w ≡ done tt v) × (left v ≤ left w - 1)) where
    -- A round answers, and with a node that is up it has a `true`.
    round :
        (endpoints : List Text) (w : W)
        → (bs : List Bool) × (v : W) × (traverse check endpoints w ≡ done bs v) × (left v ≤ left w)
    round [] w = ([], w, refl, omega arith)
    round (e ∷ endpoints) w =
        let (b, v, asked, le) = answers e w in
        let (bs, u, others, le2) = round endpoints v in
        (b ∷ bs, u, rw (asked, others) refl, omega (arith, le, le2))

    round_up :
        (e : Text) (endpoints : List Text) (w : W)
        → ((v : W) → left v ≡ 0 → (u : W) × (check e v ≡ done true u))
        → left w ≡ 0
        → (bs : List Bool) × (v : W) × (traverse check (e ∷ endpoints) w ≡ done bs v)
          × (any_true bs ≡ true)
    round_up e endpoints w up now =
        let (u, asked) = up w now in
        let (bs, v, others, le) = round endpoints u in (true ∷ bs, v, rw (asked, others) refl, refl)

    -- If each check answers and each pause ends, and the first node is up once at most `n` pauses have passed,
    -- then the loop ends with a node that is ready, with fuel for `n + 1` rounds.
    pub await_nodes_up :
        (e : Text) (endpoints : List Text) (n : ℕ) (w : W)
        → ((v : W) → left v ≡ 0 → (u : W) × (check e v ≡ done true u))
        → left w ≤ n
        → (v : W) × (await_nodes clients (suc n) check (e ∷ endpoints) w ≡ done true v)
    unfolding await_nodes
    await_nodes_up e endpoints zero w up near =
        let (bs, v, asked, found) = round_up e endpoints w up (omega (arith, near)) in
        (v, rw (asked, found) refl)
    await_nodes_up e endpoints (suc n) w up near =
        let (bs, v, asked, le) = round (e ∷ endpoints) w in
        elim (Bool-cases (any_true bs)) [
          | inl found ↦ (v, rw (asked, found) refl)
          | inr missing ↦
              let (u, slept, less) = pauses v in
              let (t, ended) = await_nodes_up e endpoints n u up (omega (arith, near, le, less)) in
              (t, rw (asked, missing, slept) ended)
        ]
