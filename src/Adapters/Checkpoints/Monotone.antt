-- ===== src/Adapters/Checkpoints/Monotone.antt =====
-- A run's checkpoint never moves backwards.
use production_agent_runtime.Common.{
  ℕ, ◌≤◌, ◌≡◌, refl, ap, ◌∙◌, false, some, List, [], ◌∷◌, Text, text_eq, text_eq_refl, text_eq_iff,
  Bool-cases, inl, inr, ltb, arith,
}
use production_agent_runtime.Common.Dict
use production_agent_runtime.Common.Dict.{get-put}
use production_agent_runtime.Adapters.Checkpoints.{Checkpoint, Checkpoints, save, load, moves_back}

not_less : (a b : ℕ) → b ≤ a → ltb a b ≡ false
not_less a b le = ground arith

not_before : (n a b : ℕ) → n ≤ b → ltb a b ≡ false → n ≤ a
not_before n a b le later = ground arith

module _ (State : Type 0) where
  unfoldable pub save_all : List (Checkpoint State) → Checkpoints State → Checkpoints State
  save_all [] store = store
  save_all (c ∷ checkpoints) store = save_all checkpoints (save State c store).1

  -- the store has a checkpoint of the run, at the step or behind it
  pub record Reached (run_id : Text) (step : ℕ) (store : Checkpoints State) : Type 0 where
    pub last : Checkpoint State
    pub stored : Dict.get store run_id ≡ some last
    pub reached : step ≤ last.step

  save-Reached :
      (c : Checkpoint State) (run_id : Text) (step : ℕ) (store : Checkpoints State)
      → Reached run_id step store
      → Reached run_id step (save State c store).1
  unfolding save
  save-Reached c run_id step store h =
      elim (Bool-cases (moves_back State c (Dict.get store c.run_id))) [
        | inl back ↦ rw back h
        | inr forth ↦ rw forth (elim (Bool-cases (text_eq c.run_id run_id)) [
          | inl same ↦
              let at : Dict.get store c.run_id ≡ some h.last =
                ap (Dict.get store) ((text_eq_iff c.run_id run_id).0 same) ∙ h.stored in
              let later : ltb c.step h.last.step ≡ false = rw at at forth in
              record {
                last = c;
                stored = rw get-put (rw same refl);
                reached = not_before step c.step h.last.step h.reached later;
              }
          | inr other ↦ record {
            last = h.last;
            stored = rw get-put (rw other h.stored);
            reached = h.reached;
          }
        ])
      ]

  -- A run whose stored checkpoint is at a step or behind it has a stored checkpoint at that step or
  -- behind it after any checkpoints are saved.
  pub save_all-Reached :
      (checkpoints : List (Checkpoint State)) (run_id : Text) (step : ℕ) (store : Checkpoints State)
      → Reached run_id step store
      → Reached run_id step (save_all checkpoints store)
  unfolding save_all
  save_all-Reached [] run_id step store h = h
  save_all-Reached (c ∷ checkpoints) run_id step store h =
      save_all-Reached checkpoints run_id step _ (save-Reached c run_id step store h)

  -- A checkpoint at the step of the stored one or behind it is saved, and `load` gives it back.
  pub load-save :
      (c previous : Checkpoint State) (store : Checkpoints State)
      → Dict.get store c.run_id ≡ some previous
      → previous.step ≤ c.step
      → load State c.run_id (save State c store).1 ≡ some c
  unfolding save load
  load-save c previous store at le =
      rw at (rw (not_less c.step previous.step le) (rw get-put (rw (text_eq_refl c.run_id) refl)))
