-- ===== src/Adapters/Runs/Linked.antt =====
-- Every idempotency record of the repository refers to a run that is there.
use mathlib.Core.Option.{some-injective}
use production_agent_runtime.Common.{
  ℕ, ◌≡◌, refl, sym, ap, ◌∙◌, ◌≢◌, true, false, Option, none, some, List, [], ◌∷◌, Text, text_eq,
  text_eq_iff, text_eq_refl, is_some, Bool-cases, inl, inr, arith,
}
use production_agent_runtime.Common.Dict
use production_agent_runtime.Common.Dict.{get-put, get-remove}
use production_agent_runtime.Adapters.Runs.{
  IdempotencyRecord, RunRepository, new_repository, add, delete, find_idempotency, insert_indexed,
  insert_run, without_key, insert, get,
}

module _ (Run : Type 0) (id : Run → Text) (created_at : Run → ℕ) where
  -- what a record in the index says of the rest
  pub record Refers (s : RunRepository Run) (key : Text) (entry : IdempotencyRecord) : Type 0 where
    pub has_run : is_some (Dict.get s.runs entry.run_id) ≡ true
    pub by_run : Dict.get s.idempotency_by_run entry.run_id ≡ some key

  pub record IsLinked (s : RunRepository Run) : Type 0 where
    pub refers :
        (key : Text) (entry : IdempotencyRecord)
        → Dict.get s.idempotency key ≡ some entry
        → Refers s key entry

  new_repository-IsLinked : IsLinked (new_repository Run id created_at)
  unfolding Dict.get
  new_repository-IsLinked = record { refers = λ key entry h. ground (arith, h) }

  -- a new run leaves what refers to the others
  Refers-insert :
      (s : RunRepository Run) (run : Run) (key : Text) (entry : IdempotencyRecord)
      → is_some (Dict.get s.runs (id run)) ≡ false
      → Refers s key entry
      → text_eq (id run) entry.run_id ≡ false
  Refers-insert s run key entry fresh h = elim (Bool-cases (text_eq (id run) entry.run_id)) [
    | inl same ↦
        let e : id run ≡ entry.run_id = (text_eq_iff (id run) entry.run_id).0 same in
        let clash : true ≡ false =
          sym h.has_run ∙ ap (λ (j : Text). is_some (Dict.get s.runs j)) (sym e) ∙ fresh in
        ground arith
    | inr other ↦ other
  ]

  insert_run-IsLinked :
      (s : RunRepository Run) (run : Run)
      → is_some (Dict.get s.runs (id run)) ≡ false
      → IsLinked s
      → IsLinked (insert_run Run id created_at run s)
  insert_run-IsLinked s run fresh h = record {
    refers = λ key entry at.
        let r = h.refers key entry at in
        record {
          has_run = rw get-put (rw (Refers-insert s run key entry fresh r) r.has_run);
          by_run = r.by_run;
        };
  }

  insert_indexed-IsLinked :
      (s : RunRepository Run) (run : Run) (new : IdempotencyRecord)
      → is_some (Dict.get s.runs (id run)) ≡ false
      → new.run_id ≡ id run
      → IsLinked s
      → IsLinked (insert_indexed Run id created_at run new s)
  insert_indexed-IsLinked s run new fresh owned h = record {
    refers = λ key entry at. elim (Bool-cases (text_eq new.key key)) [
      | inl same ↦
          let e : new ≡ entry = some-injective new entry (rw (get-put, same) at at) in
          rw (← e) record {
            has_run = rw (get-put, owned, text_eq_refl) refl;
            by_run = rw (get-put, owned, text_eq_refl) (ap some ((text_eq_iff new.key key).0 same));
          }
      | inr other ↦
          let r = h.refers key entry (rw (get-put, other) at at) in
          let apart = Refers-insert s run key entry fresh r in
          record { has_run = rw (get-put, apart) r.has_run; by_run = rw (get-put, apart) r.by_run }
    ];
  }

  insert-IsLinked :
      (s : RunRepository Run) (run : Run) (idempotency : Option IdempotencyRecord)
      → is_some (Dict.get s.runs (id run)) ≡ false
      → IsLinked s
      → IsLinked (insert Run id created_at run idempotency s).1
  insert-IsLinked s run none fresh h = insert_run-IsLinked s run fresh h
  insert-IsLinked s run (some entry) fresh h = elim (Bool-cases (text_eq entry.run_id (id run))) [
    | inl owned ↦ rw owned (elim (Bool-cases (is_some (Dict.get s.idempotency entry.key))) [
      | inl used ↦ rw used h
      | inr unused ↦ rw unused (
          insert_indexed-IsLinked s run entry fresh ((text_eq_iff entry.run_id (id run)).0 owned) h)
    ])
    | inr foreign ↦ rw foreign h
  ]

  add-IsLinked :
      (s : RunRepository Run) (run : Run) (idempotency : Option IdempotencyRecord)
      → IsLinked s
      → IsLinked (add Run id created_at run idempotency s).1
  unfolding add
  add-IsLinked s run idempotency h = elim (Bool-cases (is_some (Dict.get s.runs (id run)))) [
    | inl old ↦ rw old h
    | inr fresh ↦ rw fresh (insert-IsLinked s run idempotency fresh h)
  ]

  -- what is left of the index was there before, under another key than the removed one
  left_of :
      (s : RunRepository Run) (removed : Option Text) (key : Text) (entry : IdempotencyRecord)
      → Dict.get (without_key Run id created_at removed s.idempotency) key ≡ some entry
      → (Dict.get s.idempotency key ≡ some entry) × (removed ≢ some key)
  left_of s none key entry at = (at, λ e. ground (arith, e))
  left_of s (some k) key entry at = elim (Bool-cases (text_eq k key)) [
    | inl same ↦ let gone : none ≡ some entry = rw (get-remove, same) at at in ground (arith, gone)
    | inr other ↦ (
      rw (get-remove, other) at at,
      λ e.
          let clash : false ≡ true = sym other ∙ (text_eq_iff k key).1 (some-injective k key e) in
          ground (arith, clash),
    )
  ]

  delete-IsLinked :
      (s : RunRepository Run) (run_id : Text)
      → IsLinked s
      → IsLinked (delete Run id created_at run_id s)
  unfolding delete
  delete-IsLinked s run_id h = record {
    refers = λ key entry at.
        let (before, kept) = left_of s (Dict.get s.idempotency_by_run run_id) key entry at in
        let r = h.refers key entry before in
        elim (Bool-cases (text_eq run_id entry.run_id)) [
          | inl same ↦ absurd (
              kept (
                ap (Dict.get s.idempotency_by_run) ((text_eq_iff run_id entry.run_id).0 same)
                ∙ r.by_run))
          | inr other ↦ record {
            has_run = rw (get-remove, other) r.has_run;
            by_run = rw (get-remove, other) r.by_run;
          }
        ];
  }

  -- the calls that change the repository
  pub data Change : Type 0 where
    adds : Run → Option IdempotencyRecord → Change
    deletes : Text → Change

  unfoldable pub change : Change → RunRepository Run → RunRepository Run
  change (adds run idempotency) s = (add Run id created_at run idempotency s).1
  change (deletes run_id) s = delete Run id created_at run_id s

  unfoldable pub change_all : List Change → RunRepository Run → RunRepository Run
  change_all [] s = s
  change_all (c ∷ changes) s = change_all changes (change c s)

  change-IsLinked : (c : Change) (s : RunRepository Run) → IsLinked s → IsLinked (change c s)
  unfolding change
  change-IsLinked (adds run idempotency) s h = add-IsLinked s run idempotency h
  change-IsLinked (deletes run_id) s h = delete-IsLinked s run_id h

  change_all-IsLinked :
      (changes : List Change) (s : RunRepository Run) → IsLinked s → IsLinked (change_all changes s)
  unfolding change_all
  change_all-IsLinked [] s h = h
  change_all-IsLinked (c ∷ changes) s h =
      change_all-IsLinked changes (change c s) (change-IsLinked c s h)

  -- Whatever runs are added and deleted in a new repository, accepted or refused, an idempotency
  -- record that is found refers to a run that is found.
  pub find_idempotency-get :
      (changes : List Change) (key : Text) (entry : IdempotencyRecord)
      → find_idempotency Run id created_at key
          (change_all changes (new_repository Run id created_at))
        ≡ some entry
      → is_some (
          get Run id created_at entry.run_id
            (change_all changes (new_repository Run id created_at)))
        ≡ true
  unfolding find_idempotency get
  find_idempotency-get changes key entry found =
      ((change_all-IsLinked changes (new_repository Run id created_at)
          new_repository-IsLinked).refers
        key entry found).has_run
