-- ===== src/Bridge/Session/Returns.antt =====
-- What `set` and `_read_file` of a bridge return.
use Prim.Native.String.{String}
use huawei_solar_lib.Base.{
  ℕ, ◌≡◌, refl, sym, ap, inl, inr, Bool, true, false, ◌&&◌, Option, none, some, List, ◌∷◌,
  Bool-cases,
}
use huawei_solar_lib.Exceptions.{Error, Result, ok, err, permission_denied}
use huawei_solar_lib.Payload.{Bytes}
use huawei_solar_lib.Bridge.SessionState.{
  Call, login_call, heartbeat_call, set_call, get_file_call, Client, Session, Action, catching,
  truth,
}
use huawei_solar_lib.Bridge.Session.{
  called, write_again, client_heartbeat, client_set, client_get_file, ensure_logged_in,
  is_permission_denied, first_heartbeat, again_if_denied, set, read_file,
}
use huawei_solar_lib.Bridge.Session.Actions.{bind-eq-ok, handle-Returns}

-- The last call was this one, and the client replied to it with `a`.
abbrev pub Replied : {V A : Type 0} → Call V → (List (Call V) → Result A) → A → Session V → Type 0
Replied {V} call reply a s =
    (before : List (Call V)) × (s.calls ≡ call ∷ before) × (reply before ≡ ok a)

module _ {V : Type 0} where
  called-Replied :
      {A : Type 0} (call : Call V) (reply : List (Call V) → Result A) (s s' : Session V) (a : A)
      → called call reply s ≡ (ok a, s')
      → Replied call reply a s'
  called-Replied call reply s s' a h = (
    s.calls,
    sym (ap (λ (r : Result _ × Session V). r.1.calls) h),
    ap (λ (r : Result _ × Session V). r.0) h,
  )

module _ {V : Type 0} (client : Client V) (slave_id : ℕ) where
  again_if_denied-eq-ok :
      {A : Type 0} (retry : Action V A) (e : Error) (s : Session V) (a : A) (s' : Session V)
      → again_if_denied client slave_id retry e s ≡ (ok a, s')
      → (t : Session V) × (retry t ≡ (ok a, s'))
  unfolding again_if_denied
  again_if_denied-eq-ok retry e s a s' h =
      elim (Bool-cases (is_permission_denied e && truth s.username)) [
        | inl denied ↦
            let (_, t, _, h') =
              bind-eq-ok (ensure_logged_in client slave_id true) (λ _. retry) s a s'
                (rw denied at h) in
            (t, h')
        | inr other ↦ absurd (cc (rw other at h))
      ]

  -- What a call returns that is made again after a forced login is a reply to the last call.
  retried-Replied :
      {A : Type 0} (call : Call V) (reply : List (Call V) → Result A) (retry : Action V A)
      (s : Session V) (a : A) (s' : Session V)
      → ((t : Session V) (x : A) (u : Session V) → retry t ≡ (ok x, u) → Replied call reply x u)
      → catching (called call reply) (again_if_denied client slave_id retry) s ≡ (ok a, s')
      → Replied call reply a s'
  retried-Replied call reply retry s a s' k h =
      handle-Returns (Replied call reply) (called call reply s)
        (again_if_denied client slave_id retry) (λ x t e. called-Replied call reply s t x e)
        (λ e t x u _ e'. let (t', h') = again_if_denied-eq-ok retry e t x u e' in k t' x u h') a s'
        h

  -- `set` returns a value only if the last call that it made is the client's `set` of that name and
  -- value for the bridge's slave, and this is what it returned.
  pub set-Replied :
      (name : String) (v : V) (s : Session V) (b : Bool) (s' : Session V)
      → set client slave_id name v s ≡ (ok b, s')
      → Replied (set_call name v slave_id) (λ calls. client.set calls name v slave_id) b s'
  unfolding set client_set write_again
  set-Replied name v s b s' h =
      let (_, t, _, h1) = bind-eq-ok (ensure_logged_in client slave_id false) _ s b s' h in
      let (_, u, _, h2) = bind-eq-ok (first_heartbeat client slave_id t) _ t b s' h1 in
      retried-Replied (set_call name v slave_id) (λ calls. client.set calls name v slave_id)
        (write_again client slave_id name v) u b s'
        (λ w x u h3.
          let (_, w', _, h4) =
            bind-eq-ok (client_heartbeat client slave_id) (λ _. client_set client slave_id name v) w
              x u h3 in
          called-Replied (set_call name v slave_id) (λ calls. client.set calls name v slave_id) w' u
            x h4)
        h2

  -- The same for the client's `get_file`.
  pub read_file-Replied :
      (file_type : ℕ) (customized_data : Option Bytes) (s : Session V) (file : Bytes)
      (s' : Session V)
      → read_file client slave_id file_type customized_data s ≡ (ok file, s')
      → Replied
          (get_file_call file_type customized_data slave_id)
          (λ calls. client.get_file calls file_type customized_data slave_id)
          file
          s'
  unfolding read_file client_get_file
  read_file-Replied file_type customized_data s file s' h =
      let reply : List (Call V) → Result Bytes =
        λ calls. client.get_file calls file_type customized_data slave_id in
      let call : Call V = get_file_call file_type customized_data slave_id in
      let (_, t, _, h1) = bind-eq-ok (ensure_logged_in client slave_id false) _ s file s' h in
      retried-Replied call reply (client_get_file client slave_id file_type customized_data) t file
        s' (λ w x u e. called-Replied call reply w u x e) h1

  -- While the bridge is logged in and the library's own heartbeat answers, a write that the inverter
  -- denies is followed by one login with the stored credentials, for which no slave is given, by one
  -- heartbeat, and by one more write: what this write returns or raises is what `set` does.
  pub set-logs_in_again :
      (name : String) (v : V) (s : Session V) (u p : String) (task : ℕ) (alive beats : Bool)
      → truth (some u) ≡ true
      → truth (some p) ≡ true
      → s.username ≡ some u
      → s.password ≡ some p
      → s.heartbeat_enabled ≡ true
      → s.heartbeat_task ≡ some task
      → client.heartbeat s.calls slave_id ≡ ok alive
      → client.set (heartbeat_call slave_id ∷ s.calls) name v slave_id ≡ err permission_denied
      → client.login (set_call name v slave_id ∷ heartbeat_call slave_id ∷ s.calls) none u p
        ≡ ok true
      → client.heartbeat
          (login_call none u p ∷ set_call name v slave_id ∷ heartbeat_call slave_id ∷ s.calls)
          slave_id
        ≡ ok beats
      → (set client slave_id name v s).0
        ≡ client.set
            (heartbeat_call slave_id
              ∷ login_call none u p
              ∷ set_call name v slave_id
              ∷ heartbeat_call slave_id
              ∷ s.calls)
            name
            v
            slave_id
  unfolding set
  set-logs_in_again name v s u p task alive beats hu hp eu ep on stored first denied accepted
        second =
      rw (eu, hu, on, first, denied, hu, ep, hp, accepted, stored, second) refl
