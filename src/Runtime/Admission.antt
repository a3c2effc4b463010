-- ===== src/Runtime/Admission.antt =====
-- A run that `submit` admits under an idempotency key is found again under it.
use production_agent_runtime.Common.{
  ◌≡◌, refl, sym, ap, ◌∙◌, true, false, Option, some, Text, text_eq, text_eq_iff, text_eq_refl,
  strip, is_blank, Bool-cases, inl, inr,
}
use production_agent_runtime.Common.Dict.{get-put}
use production_agent_runtime.Common.Exec.{Exec, Result, ok, err, ◌>>=◌}
use production_agent_runtime.Common.Exec.Keeps.{
  Leads, Leads-bind, Outcome, Returned, Triple, Triple-bind, Triple-pure, Triple-of_Keeps,
}
use production_agent_runtime.Models.{RunRecord, created, is_terminal}
use production_agent_runtime.Runtime.State.{Runtime, Indexed, store}
use production_agent_runtime.Runtime.Submit.{submit, admit_run, register, is_bad_key, same_request}
use production_agent_runtime.Runtime.Replay.{submit-replay, same_request_iff}
use production_agent_runtime.Runtime.Held.{
  IsUnused, Never, W, H, put-filed, contains-last, increment-Leads, emit-Leads, transition-Leads,
  enqueue-Leads, update-Leads,
}

module _ (key : Text) (run : RunRecord) (session_id : Option Text) where
  abbrev pub entry : Indexed
  entry = record { run_id = run.id; input = run.input; kind = run.kind; session_id = session_id }

  register-Leads :
      run.state ≡ created
      → Leads (IsUnused key) (register run session_id (some key)) (W key entry created) Never
  unfolding register store ◌>>=◌
  register-Leads is_created = record {
    at = λ s h. record {
      held = record {
        registered = contains-last s.runs run.id;
        indexed = get-put s.idempotency_index key key entry ∙ (rw (text_eq_refl key) refl);
        only = λ j at. elim (Bool-cases (text_eq run.id j)) [
          | inl same ↦ sym ((text_eq_iff run.id j).0 same)
          | inr other ↦ absurd (h.unused j (rw (get-put, other) at at))
        ];
        filed = put-filed s.objects run h.filed;
        run = run;
        at_id = get-put s.objects run.id run.id run ∙ (rw (text_eq_refl run.id) refl);
        in_state = is_created;
        started = h.started;
        closed = h.closed;
      };
      room = h.room;
    };
  }

  admit_run-Leads :
      run.state ≡ created
      → is_blank run.id ≡ false
      → Leads (IsUnused key) (admit_run session_id (some key) run) (H key entry) Never
  unfolding admit_run
  admit_run-Leads is_created named = Leads-bind _ _ (register-Leads is_created) λ u.
      Leads-bind _ _ (increment-Leads key entry created _) λ u.
        Leads-bind _ _ (emit-Leads key entry created _ _ _ _) λ u.
          Leads-bind _ _ (transition-Leads key entry) λ u.
            Leads-bind _ _ (enqueue-Leads key entry named)
              λ u. Leads-bind _ _ (update-Leads key entry) λ u. record { at = λ s h. h }

  any : {A : Type 0} (m : Exec Runtime A) → Triple (λ s. Unit) m (λ a. Unit)
  any m = Triple-of_Keeps m (record { at = λ s h. tt })

  -- what is returned is the run's identifier
  admit_run-Triple : Triple (λ s. Unit) (admit_run session_id (some key) run) (λ id. id ≡ run.id)
  unfolding admit_run
  admit_run-Triple = Triple-bind _ _ (any _) λ u q. Triple-bind _ _ (any _) λ u q.
      Triple-bind _ _ (any _) λ u q.
        Triple-bind _ _ (any _) λ u q.
          Triple-bind _ _ (any _) λ u q. Triple-bind _ _ (any _) λ u q. Triple-pure run.id refl

  -- a submission that finds the entry
  held-replay :
      (input_text : Text) (s : Runtime)
      → H key entry s
      → strip input_text ≡ run.input
      → is_blank run.input ≡ false
      → is_bad_key (some key) ≡ false
      → let (r, s') = submit input_text run.kind session_id (some key) s in
        (r ≡ ok run.id) × ((s'.objects ≡ s.objects) × (s'.queue ≡ s.queue))
  held-replay input_text s h stripped written good =
      let (returned, objects, queue) =
        submit-replay s input_text key run.kind session_id entry h.started h.closed
          (record {
            run = h.run;
            filed = h.filed;
            at_id = h.at_id;
            live = ap is_terminal h.in_state;
          })
          (record {
            registered = h.registered;
            indexed = h.indexed;
            only = h.only;
            same_objects = refl;
            same_queue = refl;
          })
          (ap is_blank stripped ∙ written) good in
      let same : same_request entry (strip input_text) run.kind session_id ≡ true =
        (same_request_iff entry (strip input_text) run.kind session_id).1 (stripped, refl, refl) in
      (returned ∙ (rw same refl), (objects, queue))

  -- the two submissions together
  abbrev pub IsReplayed : Text → Result Text → Runtime → Type 0
  IsReplayed input_text r s =
      (r ≡ ok run.id)
      × (let (again, s') = submit input_text run.kind session_id (some key) s in
          (again ≡ ok run.id) × ((s'.objects ≡ s.objects) × (s'.queue ≡ s.queue)))

  replayed :
      (input_text : Text) (r : Result Text) (s : Runtime)
      → Outcome r s (H key entry) Never
      → Returned r (λ id. id ≡ run.id)
      → strip input_text ≡ run.input
      → is_blank run.input ≡ false
      → is_bad_key (some key) ≡ false
      → IsReplayed input_text r s
  replayed input_text (ok id) s h q stripped written good =
      (ap ok q, held-replay input_text s h stripped written good)
  replayed input_text (err e) s h q stripped written good = elim h [ ]

  -- An engine that is started and not closed, has room in its queue, has its objects filed under
  -- their identifiers and has not met a key admits a new run under the key. Then a submission of
  -- the run's input, kind and session under the key returns that run, and changes neither the
  -- objects nor the queue. (The key has an accepted length, and the input is not blank.)
  pub admit_run-IsReplayed :
      (input_text : Text) (s : Runtime)
      → IsUnused key s
      → run.state ≡ created
      → is_blank run.id ≡ false
      → strip input_text ≡ run.input
      → is_blank run.input ≡ false
      → is_bad_key (some key) ≡ false
      → let (r, s') = admit_run session_id (some key) run s in IsReplayed input_text r s'
  admit_run-IsReplayed input_text s h is_created named stripped written good =
      replayed input_text _ _ ((admit_run-Leads is_created named).at s h)
        (admit_run-Triple.at s tt).1 stripped written good
