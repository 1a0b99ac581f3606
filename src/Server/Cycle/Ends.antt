-- ===== src/Server/Cycle/Ends.antt =====
-- The walk over the connections ends, though it may begin anew.
use fast.Prelude.{
  Bool, Bool-cases, List, false, none, subst, sym, Option-cases, [], arith, inl, inr, length,
  length-append, refl, some, suc, true, zero, ℕ, ◌++◌, ◌+◌, ◌<◌, ◌∷◌, ◌≡◌,
}
use fast.Server.{Connection}
use fast.Server.Read.{Hooks}
use fast.Server.Cycle.{Visit, Walk, keep_visit, visit, walk, walks}

module _ (connected_hook : Connection → Connection) (hooks : Hooks) where
  -- A walk keeps or closes each connection, and closes one when it begins anew.
  walk-counts :
      (vs : List Visit)
      → let w = walk connected_hook hooks vs in
        (length w.visits + length w.closed ≡ length vs) × (w.again ≡ true → 0 < length w.closed)
  unfolding walk
  walk-counts [] = (refl, λ h. absurd (ground (arith, h)))
  walk-counts ((e, r) ∷ []) = elim (Option-cases (visit connected_hook hooks (e, r)).0) [
    | inl k ↦ (ground (arith, k), λ h. ground (arith, k))
    | inr (u, k) ↦ (ground (arith, k), λ h. absurd (ground (arith, k, h)))
  ]
  walk-counts ((e, r) ∷ (f ∷ rest)) = elim (Option-cases (visit connected_hook hooks (e, r)).0) [
    | inl k ↦ (ground (arith, k, walk-counts rest), λ h. ground (arith, k))
    | inr (u, k) ↦
        let (counts, closes) = walk-counts (f ∷ rest) in
        (ground (arith, k, counts), λ h. ground (arith, k, closes (ground (arith, k, h))))
  ]

  -- One walk, as a relation of the connections before it, those after it, those that it closes, and
  -- whether it begins anew: what it visits stays with what the visit made of it, or is closed, and
  -- only the one behind a closed connection is stepped over.
  pub data Walked : List Visit → List Visit → List ℕ → Bool → Type 0 where
    ends : Walked [] [] [] false
    stays :
        {v u : Visit} {vs us : List Visit} {closed : List ℕ} {anew : Bool}
        → (visit connected_hook hooks v).0 ≡ some u
        → Walked vs us closed anew
        → Walked (v ∷ vs) (u ∷ us) closed anew
    closes :
        {v next : Visit} {vs us : List Visit} {closed : List ℕ} {anew : Bool}
        → (visit connected_hook hooks v).0 ≡ none
        → Walked vs us closed anew
        → Walked (v ∷ next ∷ vs) (next ∷ us) (v.0.id ∷ closed) anew
    closes_last :
        {v : Visit}
        → (visit connected_hook hooks v).0 ≡ none
        → Walked (v ∷ []) [] (v.0.id ∷ []) true

  -- walks until one does not begin anew
  pub data Rounds : List Visit → List Visit → List ℕ → Type 0 where
    final : {vs us : List Visit} {closed : List ℕ} → Walked vs us closed false → Rounds vs us closed
    further :
        {vs us ws : List Visit} {closed more : List ℕ}
        → Walked vs us closed true
        → Rounds us ws more
        → Rounds vs ws (closed ++ more)

  abbrev IsWalked : List Visit → Walk → Type 0
  IsWalked vs w = Walked vs w.visits w.closed w.again

  IsWalked-eq : (vs : List Visit) (w x : Walk) → w ≡ x → IsWalked vs x → IsWalked vs w
  IsWalked-eq vs w x e h = subst (IsWalked vs) (sym e) h

  abbrev only : Visit → Bool → Walk
  only u waits =
      keep_visit u waits (record { again = false; visits = []; timers = []; closed = [] })

  walk-Walked : (vs : List Visit) → IsWalked vs (walk connected_hook hooks vs)
  unfolding walk
  walk-Walked [] = ends
  walk-Walked ((e, r) ∷ []) = elim (Option-cases (visit connected_hook hooks (e, r)).0) [
    | inl k ↦
        IsWalked-eq ((e, r) ∷ []) (walk connected_hook hooks ((e, r) ∷ []))
          (record { again = true; visits = []; timers = []; closed = e.id ∷ [] })
          (ground (arith, k)) (closes_last k)
    | inr (u, k) ↦
        IsWalked-eq ((e, r) ∷ []) (walk connected_hook hooks ((e, r) ∷ []))
          (only u (visit connected_hook hooks (e, r)).1) (ground (arith, k)) (stays k ends)
  ]
  walk-Walked ((e, r) ∷ (f ∷ rest)) = elim (Option-cases (visit connected_hook hooks (e, r)).0) [
    | inl k ↦
        let w = walk connected_hook hooks rest in
        IsWalked-eq ((e, r) ∷ (f ∷ rest)) (walk connected_hook hooks ((e, r) ∷ (f ∷ rest)))
          (record w { visits = f ∷ w.visits; closed = e.id ∷ w.closed }) (ground (arith, k))
          (closes k (walk-Walked rest))
    | inr (u, k) ↦
        IsWalked-eq ((e, r) ∷ (f ∷ rest)) (walk connected_hook hooks ((e, r) ∷ (f ∷ rest)))
          (keep_visit u (visit connected_hook hooks (e, r)).1
            (walk connected_hook hooks (f ∷ rest)))
          (ground (arith, k)) (stays k (walk-Walked (f ∷ rest)))
  ]

  -- With fuel for one walk more than there are connections, the loop over them ends, however many
  -- of them are closed on the way. Its result is that of walks that begin anew until one does not:
  -- in each walk a connection stays with what its visit made of it, or is closed exactly when its
  -- visit says so, and the one behind a closed connection stays as it is; as many are left or closed
  -- as there were.
  pub walks-Ends :
      (fuel : ℕ) (vs : List Visit)
      → length vs < fuel
      → (us : List Visit) × (timers closed : List ℕ) × (walks connected_hook hooks fuel vs
          ≡ some (us, timers, closed))
        × Rounds vs us closed
        × (length us + length closed ≡ length vs)
  unfolding walks
  walks-Ends zero vs h = absurd (omega arith)
  walks-Ends (suc fuel) vs h =
      let w = walk connected_hook hooks vs in
      let (counts, closes_one) = walk-counts vs in
      elim (Bool-cases w.again) [
        | inr over ↦ (
          w.visits,
          w.timers,
          w.closed,
          ground (arith, over),
          final (subst (Walked vs w.visits w.closed) over (walk-Walked vs)),
          counts,
        )
        | inl anew ↦
            let (us, timers, closed, run, rounds, more) =
              walks-Ends fuel w.visits (omega (arith, counts, closes_one anew)) in
            (
              us,
              w.timers ++ timers,
              w.closed ++ closed,
              ground (arith, anew, run),
              further (subst (Walked vs w.visits w.closed) anew (walk-Walked vs)) rounds,
              omega (arith, more, counts, length-append w.closed closed),
            )
      ]
