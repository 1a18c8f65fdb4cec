-- ===== src/Bridge/Session/Invariant.antt =====
-- The invariant of a bridge's session, and that starting and stopping the heartbeat keeps it.
use Prim.Native.String.{String}
use huawei_solar_lib.Base.{
  ℕ, ◌≡◌, refl, ap, ◌⊎◌, inl, inr, true, false, Option, none, some, [], ◌∷◌, ==_iff,
}
use huawei_solar_lib.Bridge.SessionState.{Call, Session, cancel}
use huawei_solar_lib.Bridge.Session.{
  stop_heartbeat, create_task, start_over, start_heartbeat, save_credentials,
}
use huawei_solar_lib.Bridge.Session.Actions.{Keeps}

-- At most one heartbeat task runs, and it is the one that the bridge has stored; while the heartbeat
-- is enabled that task runs, unless it ended with an error that its loop does not catch; and a name
-- is stored together with a password.
pub record IsSession {V : Type 0} (s : Session V) : Type 0 where
  pub one_task : (s.running ≡ []) ⊎ ((t : ℕ) × (s.heartbeat_task ≡ some t) × (s.running ≡ t ∷ []))
  pub beating :
      (s.heartbeat_enabled ≡ false) ⊎ (((t : ℕ) × (s.running ≡ t ∷ [])) ⊎ (s.crashed ≡ true))
  pub credentials :
      ((s.username ≡ none) × (s.password ≡ none))
      ⊎ ((u : String) × (p : String) × (s.username ≡ some u) × (s.password ≡ some p))

pub cancel_one : (t : ℕ) → cancel (some t) (t ∷ []) ≡ []
cancel_one t = rw ((==_iff t t).1 refl) refl

pub cancel_none : (task : Option ℕ) → cancel task [] ≡ []
cancel_none none = refl
cancel_none (some t) = refl

cancelled :
    {V : Type 0} (s : Session V)
    → (s.running ≡ []) ⊎ ((t : ℕ) × (s.heartbeat_task ≡ some t) × (s.running ≡ t ∷ []))
    → cancel s.heartbeat_task s.running ≡ []
cancelled s (inl e) = rw e (cancel_none s.heartbeat_task)
cancelled s (inr (t, e, e')) = rw (e, e') (cancel_one t)

module _ {V : Type 0} where
  pub stop_heartbeat-Keeps : Keeps IsSession (stop_heartbeat {V = V})
  unfolding stop_heartbeat
  stop_heartbeat-Keeps s h = record {
    one_task = inl (cancelled s h.one_task);
    beating = inl refl;
    credentials = h.credentials;
  }

  -- A task may be created while no other runs.
  create_task-IsSession :
      (s : Session V) → s.running ≡ [] → IsSession s → IsSession (create_task s).1
  unfolding create_task
  create_task-IsSession s free h = record {
    one_task = inr (s.created, refl, ap (λ ts. s.created ∷ ts) free);
    beating = inr (inl (s.created, ap (λ ts. s.created ∷ ts) free));
    credentials = h.credentials;
  }

  started :
      (task : Option ℕ) (s : Session V)
      → (task ≡ none → s.running ≡ [])
      → IsSession s
      → IsSession (start_over task s).1
  unfolding start_over stop_heartbeat
  started none s free h = create_task-IsSession s (free refl) h
  started (some t) s free h =
      create_task-IsSession (stop_heartbeat s).1 (cancelled s h.one_task) (stop_heartbeat-Keeps s h)

  not_started :
      (s : Session V)
      → (s.running ≡ []) ⊎ ((t : ℕ) × (s.heartbeat_task ≡ some t) × (s.running ≡ t ∷ []))
      → s.heartbeat_task ≡ none
      → s.running ≡ []
  not_started s (inl e) none_stored = e
  not_started s (inr (t, e, _)) none_stored = absurd (cc)

  pub start_heartbeat-Keeps : Keeps IsSession (start_heartbeat {V = V})
  unfolding start_heartbeat
  start_heartbeat-Keeps s h = started s.heartbeat_task s (not_started s h.one_task) h

  pub save_credentials-Keeps :
      (username password : String) → Keeps IsSession (save_credentials {V = V} username password)
  unfolding save_credentials
  save_credentials-Keeps username password s h = record {
    one_task = h.one_task;
    beating = h.beating;
    credentials = inr (username, password, refl, refl);
  }

  pub called-IsSession :
      (s : Session V) (call : Call V)
      → IsSession s
      → IsSession (record s { calls = call ∷ s.calls })
  called-IsSession s call h = record {
    one_task = h.one_task;
    beating = h.beating;
    credentials = h.credentials;
  }
