-- ===== src/Runtime/Resubmit.antt =====
-- A submission under a new idempotency key, and the same submission again.
use production_agent_runtime.Common.{
  ℕ, ◌+◌, ◌≡◌, refl, sym, ap, ◌∙◌, false, Option, none, some, List, [], ◌∷◌, Text, text_eq, strip,
  is_blank, is_blank-strip_twice, Bool-cases, inl, inr, arith,
}
use production_agent_runtime.Common.Dict
use production_agent_runtime.Common.Dict.{Dict, get-remove}
use production_agent_runtime.Common.Exec.{Exec, Result, ok, err, continue, ◌>>=◌}
use production_agent_runtime.Common.Exec.Keeps.{Leads, Leads-bind, Outcome}
use production_agent_runtime.Models.{RunRecord, AgentKind, created, new_run}
use production_agent_runtime.Metrics.{Metrics}
use production_agent_runtime.Runtime.State.{
  Runtime, Indexed, time, uuid4, increment, set_gauge, update_registry_metrics,
}
use production_agent_runtime.Runtime.Registry.{forget_key, evict, evict_all, cleanup_runs}
use production_agent_runtime.Runtime.Submit.{
  submit, accept, admit_run, create, choose_session, lift, refuse_if_full, refuse_full, replay,
  replay_entry, replay_or_accept, is_bad_key,
}
use production_agent_runtime.Runtime.Replay.{start-started}
use production_agent_runtime.Runtime.Held.{IsUnused}
use production_agent_runtime.Runtime.Admission.{IsReplayed, admit_run-IsReplayed}

-- an engine that has not met the key, in a world whose generated identifiers are not blank
pub record IsNew (key : Text) (s : Runtime) : Type 0 where
  pub unused : IsUnused key s
  pub fresh : Dict.get s.idempotency_index key ≡ none
  pub ids_named : (n : ℕ) → is_blank (s.world.uuid n) ≡ false

abbrev Never : Runtime → Type 0
Never s = ⊥

-- readings of the clock, generated identifiers and metrics leave an engine new
counted :
    (key : Text) (s : Runtime) (times uuids : ℕ) (metrics : Metrics)
    → IsNew key s
    → IsNew key (record s { times_read = times; uuids_drawn = uuids; metrics = metrics })
counted key s times uuids metrics h = record {
  unused = record {
    filed = h.unused.filed;
    unused = h.unused.unused;
    started = h.unused.started;
    closed = h.unused.closed;
    room = h.unused.room;
  };
  fresh = h.fresh;
  ids_named = h.ids_named;
}

module _ (key : Text) where
  forget-fresh :
      (index : Dict Indexed) (other : Option Text)
      → Dict.get index key ≡ none
      → Dict.get (forget_key other index) key ≡ none
  forget-fresh index none h = h
  forget-fresh index (some k) h = elim (Bool-cases (text_eq k key)) [
    | inl same ↦ rw (get-remove, same) refl
    | inr other ↦ rw (get-remove, other) h
  ]

  evict-Leads : (id : Text) → Leads (IsNew key) (evict id) (IsNew key) Never
  unfolding evict increment ◌>>=◌
  evict-Leads id = record {
    at = λ s h. record {
      unused = record {
        filed = h.unused.filed;
        unused = λ j at. elim (Bool-cases (text_eq id j)) [
          | inl same ↦
              let gone : none ≡ some key = rw (get-remove, same) at at in ground (arith, gone)
          | inr other ↦ h.unused.unused j (rw (get-remove, other) at at)
        ];
        started = h.unused.started;
        closed = h.unused.closed;
        room = h.unused.room;
      };
      fresh = forget-fresh s.idempotency_index (Dict.get s.idempotency_by_run id) h.fresh;
      ids_named = h.ids_named;
    };
  }

  evict_all-Leads : (ids : List Text) → Leads (IsNew key) (evict_all ids) (IsNew key) Never
  unfolding evict_all
  evict_all-Leads [] = record { at = λ s h. h }
  evict_all-Leads (id ∷ ids) = Leads-bind _ _ (evict-Leads id) λ u. evict_all-Leads ids

  time-Leads : Leads (IsNew key) time (IsNew key) Never
  unfolding time
  time-Leads = record { at = λ s h. counted key s (s.times_read + 1) s.uuids_drawn s.metrics h }

  update-Leads : Leads (IsNew key) update_registry_metrics (IsNew key) Never
  unfolding update_registry_metrics set_gauge ◌>>=◌
  update-Leads = record {
    at = λ s h. counted key s s.times_read s.uuids_drawn (update_registry_metrics s).1.metrics h;
  }

  cleanup_runs-Leads : (reserve : ℕ) → Leads (IsNew key) (cleanup_runs reserve) (IsNew key) Never
  unfolding cleanup_runs
  cleanup_runs-Leads reserve = Leads-bind _ _ time-Leads λ now.
      Leads-bind _ _ (record { at = λ s h. h })
        λ ids. Leads-bind _ _ (evict_all-Leads ids) λ u. update-Leads

-- a session's identifier that is not blank, by some draws
record IsChosen (s : Runtime) (o : Option Text) : Type 0 where
  session : Text
  uuids : ℕ
  chosen : choose_session o s ≡ (ok session, record s { uuids_drawn = uuids })
  opened : is_blank session ≡ false

choose_session-IsChosen :
    (o : Option Text) (s : Runtime) → ((n : ℕ) → is_blank (s.world.uuid n) ≡ false) → IsChosen s o
unfolding choose_session uuid4
choose_session-IsChosen none s named = record {
  session = s.world.uuid s.uuids_drawn;
  uuids = s.uuids_drawn + 1;
  chosen = refl;
  opened = named s.uuids_drawn;
}
choose_session-IsChosen (some id) s named = elim (Bool-cases (is_blank id)) [
  | inl blank ↦ record {
    session = s.world.uuid s.uuids_drawn;
    uuids = s.uuids_drawn + 1;
    chosen = rw blank refl;
    opened = named s.uuids_drawn;
  }
  | inr written ↦ record {
    session = id;
    uuids = s.uuids_drawn;
    chosen = rw written refl;
    opened = written;
  }
]

module _ (input_text key : Text) (kind : AgentKind) (session_id : Option Text) where
  -- the submission returned a run, and the same submission from there returns it again
  abbrev pub Repeats : Result Text → Runtime → Type 0
  Repeats (ok id) s =
      let (again, s') = submit input_text kind session_id (some key) s in
      (again ≡ ok id) × ((s'.objects ≡ s.objects) × (s'.queue ≡ s.queue))
  Repeats (err e) s = ⊥

  repeated :
      (run : RunRecord) (r : Result Text) (s : Runtime)
      → run.kind ≡ kind
      → IsReplayed key run session_id input_text r s
      → Repeats r s
  repeated run (ok id) s same (p, (again, rest)) = rw (← same) (again ∙ sym p, rest)
  repeated run (err e) s same (p, q) = ground (arith, p)

  -- the run that is made of the submission
  abbrev Made : Result RunRecord → Type 0
  Made (ok run) =
      ((run.state ≡ created) × (is_blank run.id ≡ false))
      × ((run.kind ≡ kind) × (strip input_text ≡ run.input))
  Made (err e) = ⊥

  new_run-Made :
      (id session trace_id : Text) (t u : ℕ)
      → is_blank (strip input_text) ≡ false
      → is_blank id ≡ false
      → is_blank session ≡ false
      → Made (new_run id (strip input_text) kind session trace_id t u)
  unfolding new_run
  new_run-Made id session trace_id t u written named opened =
      rw (named, is_blank-strip_twice input_text, written, opened) ((refl, named), (refl, refl))

  admitted-Repeats :
      (made : Result RunRecord) (s : Runtime)
      → Made made
      → IsUnused key s
      → is_blank (strip input_text) ≡ false
      → is_bad_key (some key) ≡ false
      → let (r, s') = continue made (admit_run session_id (some key)) s in Repeats r s'
  admitted-Repeats (ok run) s ((is_created, named), (same, stripped)) unused written good =
      repeated run _ _ same (
        admit_run-IsReplayed key run session_id input_text s unused is_created named stripped
          (ap is_blank (sym stripped) ∙ written) good)
  admitted-Repeats (err e) s h unused written good = elim h [ ]

  accept-Repeats :
      (s : Runtime)
      → IsNew key s
      → is_blank (strip input_text) ≡ false
      → is_bad_key (some key) ≡ false
      → let (r, s') = accept (strip input_text) kind session_id (some key) s in Repeats r s'
  unfolding accept refuse_if_full refuse_full create uuid4 time lift ◌>>=◌
  accept-Repeats s h written good =
      let drawn : Runtime = record s { uuids_drawn = s.uuids_drawn + 1 } in
      let c = choose_session-IsChosen session_id drawn h.ids_named in
      rw (h.unused.room, c.chosen)
        (admitted-Repeats _ _ (new_run-Made _ c.session _ _ _ written (h.ids_named _) c.opened)
          (counted key s (s.times_read + 1 + 1) (c.uuids + 1) s.metrics h).unused written good)

  -- the rest of `submit` behind the cleanup
  abbrev rest : Exec Runtime Text
  rest =
      replay (some key) (strip input_text) kind session_id
      >>= replay_or_accept (strip input_text) kind session_id (some key)

  rest-Repeats :
      (r : Result (Unit {0})) (s : Runtime)
      → Outcome r s (IsNew key) Never
      → is_blank (strip input_text) ≡ false
      → is_bad_key (some key) ≡ false
      → let (result, s') = continue r (λ u. rest) s in Repeats result s'
  unfolding replay replay_entry ◌>>=◌
  rest-Repeats (ok u) s h written good = rw h.fresh (accept-Repeats s h written good)
  rest-Repeats (err e) s h written good = elim h [ ]

  -- An engine that is started and not closed, has room in its queue, has its objects filed under
  -- their identifiers, has not met a key and generates identifiers that are not blank: a
  -- submission under the key, which has an accepted length, and with an input that is not blank
  -- returns a run, and the same submission again returns the same run and changes neither the
  -- objects nor the queue.
  pub submit-Repeats :
      (s : Runtime)
      → IsNew key s
      → is_blank (strip input_text) ≡ false
      → is_bad_key (some key) ≡ false
      → let (r, s') = submit input_text kind session_id (some key) s in Repeats r s'
  unfolding submit ◌>>=◌
  submit-Repeats s h written good =
      rw (written, start-started s h.unused.closed h.unused.started, good)
        (rest-Repeats (cleanup_runs 1 s).0 (cleanup_runs 1 s).1 ((cleanup_runs-Leads key 1).at s h)
          written good)
