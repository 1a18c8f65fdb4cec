-- ===== src/Bridge/Session/Steps.antt =====
-- What can happen to a bridge of src/huawei_solar/bridge.py. Its methods and its heartbeat task give
-- way to one another wherever they await, so the steps are the pieces of code between two awaits. A
-- task that was cancelled does not go on.
use Prim.Native.String.{String}
use huawei_solar_lib.Base.{
  ℕ, ◌≡◌, refl, ap, ◌∙◌, inl, inr, Bool, true, false, none, some, List, [], ◌∷◌, if◌then◌else◌, ◌⊎◌,
  Bool-cases,
}
use huawei_solar_lib.Base.Lists.{Any}
use huawei_solar_lib.Exceptions.{Result, ok, err, is_huawei_solar_exception}
use huawei_solar_lib.Bridge.SessionState.{Call, Session, ◌>>=◌, cancel}
use huawei_solar_lib.Bridge.Session.{stop_heartbeat, start_heartbeat, save_credentials}
use huawei_solar_lib.Bridge.Session.Actions.{Keeps-bind}
use huawei_solar_lib.Bridge.Session.Invariant.{
  IsSession, cancel_one, called-IsSession, stop_heartbeat-Keeps, start_heartbeat-Keeps,
  save_credentials-Keeps,
}
use huawei_solar_lib.Bridge.Session.Laws.{IsClosed}

-- the state of a bridge when it is created
abbrev pub initial : {V : Type 0} → Session V
initial = record {
  heartbeat_enabled = false;
  heartbeat_task = none;
  username = none;
  password = none;
  created = 0;
  running = [];
  crashed = false;
  calls = [];
}

module _ {V : Type 0} where
  -- The end of the task: its loop is left, or an error ends it.
  unfoldable pub end_task : ℕ → Session V → Session V
  end_task task s = record s { running = cancel (some task) s.running }

  -- One round of the loop in `heartbeat`, with what the client returned or raised.
  unfoldable pub beat : ℕ → Result Bool → Session V → Session V
  unfolding end_task is_huawei_solar_exception
  beat task (ok alive) s = record s { heartbeat_enabled = alive }
  beat task (err e) s =
      if is_huawei_solar_exception e
      then record s { heartbeat_enabled = false }
      else record (end_task task s) { crashed = true }

-- the task that runs
only_task :
    (task : ℕ) (running : List ℕ)
    → Any (λ t. t ≡ task) running
    → (running ≡ []) ⊎ ((t : ℕ) × (running ≡ t ∷ []))
    → running ≡ task ∷ []
only_task task running there (inl e) = absurd (rw e at there)
only_task task running there (inr (t, e)) = elim (rw e at there) [
  | inl same ↦ e ∙ ap (λ u. u ∷ []) same
  | inr nowhere ↦ absurd nowhere
]

module _ {V : Type 0} where
  -- The client is called, by a method or the heartbeat task; what a method does of its own is
  -- `stop_heartbeat`, `start_heartbeat` after a login with the stored credentials, or both lines that
  -- store new ones and `start_heartbeat`; and the heartbeat task gets any reply, or leaves its loop.
  pub data Step : Session V → Session V → Type 0 where
    calls_client : (s : Session V) (call : Call V) → Step s (record s { calls = call ∷ s.calls })
    stops : (s : Session V) → Step s (stop_heartbeat s).1
    starts : (s : Session V) → Step s (start_heartbeat s).1
    accepts :
        (s : Session V) (username password : String)
        → Step s ((save_credentials username password >>= λ _. start_heartbeat) s).1
    beats :
        (s : Session V) (task : ℕ) (reply : Result Bool)
        → Any (λ t. t ≡ task) s.running
        → Step s (beat task reply s)
    leaves :
        (s : Session V) (task : ℕ)
        → Any (λ t. t ≡ task) s.running
        → s.heartbeat_enabled ≡ false
        → Step s (end_task task s)

  -- The sessions that come about from a bridge that was just created, in any order of steps.
  pub data Reachable : Session V → Type 0 where
    created : Reachable initial
    then_step : (s s' : Session V) → Reachable s → Step s s' → Reachable s'

  -- Every method, run by itself or with the steps of others before it, is made of steps.
  pub Reachable-IsClosed : IsClosed Reachable
  Reachable-IsClosed = record {
    called = λ s call h. then_step s (record s { calls = call ∷ s.calls }) h (calls_client s call);
    stopped = λ s h. then_step s (stop_heartbeat s).1 h (stops s);
    started = λ s h. then_step s (start_heartbeat s).1 h (starts s);
    accepted = λ username password s h.
        then_step s ((save_credentials username password >>= λ _. start_heartbeat) s).1 h
          (accepts s username password);
  }

  initial-IsSession : IsSession {V = V} initial
  initial-IsSession = record {
    one_task = inl refl;
    beating = inl refl;
    credentials = inl (refl, refl);
  }

  one_running : (s : Session V) → IsSession s → (s.running ≡ []) ⊎ ((t : ℕ) × (s.running ≡ t ∷ []))
  one_running s h = elim h.one_task [ inl e ↦ inl e | inr (t, _, e) ↦ inr (t, e) ]

  end_task-none :
      (s : Session V) (task : ℕ)
      → Any (λ t. t ≡ task) s.running
      → IsSession s
      → cancel (some task) s.running ≡ []
  end_task-none s task there h =
      ap (cancel (some task)) (only_task task s.running there (one_running s h)) ∙ cancel_one task

  leaves-IsSession :
      (s : Session V) (task : ℕ)
      → Any (λ t. t ≡ task) s.running
      → s.heartbeat_enabled ≡ false
      → IsSession s
      → IsSession (end_task task s)
  unfolding end_task
  leaves-IsSession s task there off h = record {
    one_task = inl (end_task-none s task there h);
    beating = inl off;
    credentials = h.credentials;
  }

  beat-IsSession :
      (s : Session V) (task : ℕ) (r : Result Bool)
      → Any (λ t. t ≡ task) s.running
      → IsSession s
      → IsSession (beat task r s)
  unfolding beat end_task
  beat-IsSession s task (ok alive) there h = record {
    one_task = h.one_task;
    beating = inr (inl (task, only_task task s.running there (one_running s h)));
    credentials = h.credentials;
  }
  beat-IsSession s task (err e) there h = elim (Bool-cases (is_huawei_solar_exception e)) [
    | inl known ↦
        rw known record { one_task = h.one_task; beating = inl refl; credentials = h.credentials }
    | inr other ↦ rw other record {
      one_task = inl (end_task-none s task there h);
      beating = inr (inr refl);
      credentials = h.credentials;
    }
  ]

  step-IsSession : (s s' : Session V) → Step s s' → IsSession s → IsSession s'
  step-IsSession s s' (calls_client _ call) h = called-IsSession s call h
  step-IsSession s s' (stops _) h = stop_heartbeat-Keeps s h
  step-IsSession s s' (starts _) h = start_heartbeat-Keeps s h
  step-IsSession s s' (accepts _ username password) h =
      Keeps-bind IsSession (save_credentials username password) (λ _. start_heartbeat)
        (save_credentials-Keeps username password) (λ _. start_heartbeat-Keeps) s h
  step-IsSession s s' (beats _ task reply there) h = beat-IsSession s task reply there h
  step-IsSession s s' (leaves _ task there off) h = leaves-IsSession s task there off h

  -- In whatever order the calls of the client, what the methods do between them and the rounds of the
  -- heartbeat task follow one another, also of several methods at once, and whatever the client
  -- replies: at most one heartbeat task runs that was not cancelled, and it is the one that the bridge
  -- has stored; while the heartbeat is enabled that task runs, unless it ended with an error that is
  -- none of the library's; and a name is stored only together with a password.
  pub reachable-IsSession : (s : Session V) → Reachable s → IsSession s
  reachable-IsSession s created = initial-IsSession
  reachable-IsSession s (then_step before _ past step) =
      step-IsSession before s step (reachable-IsSession before past)
