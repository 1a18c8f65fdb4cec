-- ===== src/Bridge/Session/Laws.antt =====
-- What every piece of a method keeps of a session between two calls of the client, the whole method
-- keeps.
use Prim.Native.String.{String}
use huawei_solar_lib.Base.{
  ℕ, inl, inr, Bool, true, false, not, ◌&&◌, Option, none, some, ◌∷◌, if◌then◌else◌, Bool-cases,
}
use huawei_solar_lib.Exceptions.{Error, assertion_error, is_huawei_solar_exception}
use huawei_solar_lib.Payload.{Bytes}
use huawei_solar_lib.Bridge.SessionState.{
  Call, get_call, stop_call, login_call, heartbeat_call, set_call, get_file_call, Client, Session,
  Action, ◌>>=◌, pure, raise, catching, truth, text_of,
}
use huawei_solar_lib.Bridge.Session.{
  client_get, client_stop, test_write, has_write_permission, stop, stop_heartbeat, start_heartbeat,
  save_credentials, accept, accept_new, login_if_needed, write_again, client_login,
  client_heartbeat, client_set, client_get_file, login_again, ensure_logged_in, login,
  is_permission_denied, first_heartbeat, again_if_denied, set, read_file,
}
use huawei_solar_lib.Bridge.Session.Actions.{Keeps, Keeps-bind, Keeps-catching, Keeps-if}

-- The calls of the client, and what a method does between two of them, keep the property.
pub record IsClosed {V : Type 0} (P : Session V → Type 0) : Type 0 where
  pub called : (s : Session V) (call : Call V) → P s → P (record s { calls = call ∷ s.calls })
  pub stopped : Keeps P (stop_heartbeat {V = V})
  pub started : Keeps P (start_heartbeat {V = V})
  pub accepted :
      (username password : String)
      → Keeps P (save_credentials {V = V} username password >>= λ _. start_heartbeat)

module _ {V : Type 0} (P : Session V → Type 0) (closed : IsClosed P) (client : Client V)
    (slave_id : ℕ) where
  client_login-Keeps :
      (slave : Option ℕ) (username password : String)
      → Keeps P (client_login client slave_id slave username password)
  unfolding client_login
  client_login-Keeps slave username password s h =
      closed.called s (login_call slave username password) h

  client_heartbeat-Keeps : Keeps P (client_heartbeat client slave_id)
  unfolding client_heartbeat
  client_heartbeat-Keeps s h = closed.called s (heartbeat_call slave_id) h

  client_set-Keeps : (name : String) (v : V) → Keeps P (client_set client slave_id name v)
  unfolding client_set
  client_set-Keeps name v s h = closed.called s (set_call name v slave_id) h

  client_get_file-Keeps :
      (file_type : ℕ) (customized_data : Option Bytes)
      → Keeps P (client_get_file client slave_id file_type customized_data)
  unfolding client_get_file
  client_get_file-Keeps file_type customized_data s h =
      closed.called s (get_file_call file_type customized_data slave_id) h

  accept-Keeps : (accepted : Bool) → Keeps P (accept client slave_id accepted)
  unfolding accept
  accept-Keeps true s h = closed.started s h
  accept-Keeps false s h = h

  accept_new-Keeps :
      (username password : String) (accepted : Bool)
      → Keeps P (accept_new client slave_id username password accepted)
  unfolding accept_new
  accept_new-Keeps username password true s h =
      Keeps-bind P (save_credentials username password >>= λ _. start_heartbeat) (λ _. pure true)
        (closed.accepted username password) (λ _ s' h'. h') s h
  accept_new-Keeps username password false s h = h

  login_again-Keeps : (s : Session V) → Keeps P (login_again client slave_id s)
  unfolding login_again
  login_again-Keeps s =
      Keeps-if P (truth s.password)
        (client_login client slave_id none (text_of s.username) (text_of s.password)
          >>= accept client slave_id)
        (raise assertion_error)
        (Keeps-bind P (client_login client slave_id none (text_of s.username) (text_of s.password))
          (accept client slave_id)
          (client_login-Keeps none (text_of s.username) (text_of s.password)) accept-Keeps)
        (λ s' h. h)

  login_if_needed-Keeps : (s : Session V) → Keeps P (login_if_needed client slave_id s)
  unfolding login_if_needed
  login_if_needed-Keeps s =
      Keeps-if P (truth s.username && not s.heartbeat_enabled) (login_again client slave_id s)
        (pure tt) (login_again-Keeps s) (λ s' h. h)

  if_needed-Keeps : Keeps P (λ s. (login_if_needed client slave_id s >>= λ _. pure true) s)
  if_needed-Keeps s h =
      Keeps-bind P (login_if_needed client slave_id s) (λ _. pure true) (login_if_needed-Keeps s)
        (λ _ s' h'. h') s h

  pub ensure_logged_in-Keeps : (force : Bool) → Keeps P (ensure_logged_in client slave_id force)
  unfolding ensure_logged_in
  ensure_logged_in-Keeps force =
      Keeps-bind P (if force then stop_heartbeat else pure tt) _
        (Keeps-if P force stop_heartbeat (pure tt) closed.stopped (λ s h. h)) (λ _. if_needed-Keeps)

  pub login-Keeps : (username password : String) → Keeps P (login client slave_id username password)
  unfolding login
  login-Keeps username password =
      Keeps-bind P (client_login client slave_id (some slave_id) username password)
        (accept_new client slave_id username password)
        (client_login-Keeps (some slave_id) username password) (accept_new-Keeps username password)

  again_if_denied-Keeps :
      {A : Type 0} (retry : Action V A)
      → Keeps P retry
      → (e : Error) → Keeps P (again_if_denied client slave_id retry e)
  unfolding again_if_denied
  again_if_denied-Keeps retry h e s p =
      elim (Bool-cases (is_permission_denied e && truth s.username)) [
        | inl denied ↦ rw denied (
            Keeps-bind P (ensure_logged_in client slave_id true) (λ _. retry)
              (ensure_logged_in-Keeps true) (λ _. h) s p)
        | inr other ↦ rw other p
      ]

  first_heartbeat-Keeps : (s : Session V) → Keeps P (first_heartbeat client slave_id s)
  unfolding first_heartbeat
  first_heartbeat-Keeps s =
      Keeps-if P s.heartbeat_enabled
        (catching (client_heartbeat client slave_id >>= λ _. pure tt)
          (λ e. if is_huawei_solar_exception e then pure tt else raise e))
        (pure tt)
        (Keeps-catching P (client_heartbeat client slave_id >>= λ _. pure tt)
          (λ e. if is_huawei_solar_exception e then pure tt else raise e)
          (Keeps-bind P (client_heartbeat client slave_id) (λ _. pure tt) client_heartbeat-Keeps
            (λ _ s' h. h))
          (λ e.
            Keeps-if P (is_huawei_solar_exception e) (pure tt) (raise e) (λ s' h. h) (λ s' h. h)))
        (λ s' h. h)

  write_again-Keeps : (name : String) (v : V) → Keeps P (write_again client slave_id name v)
  unfolding write_again
  write_again-Keeps name v =
      Keeps-bind P (client_heartbeat client slave_id) (λ _. client_set client slave_id name v)
        client_heartbeat-Keeps (λ _. client_set-Keeps name v)

  write-Keeps :
      (name : String) (v : V)
      → Keeps P (
          catching
            (client_set client slave_id name v)
            (again_if_denied client slave_id (write_again client slave_id name v)))
  write-Keeps name v =
      Keeps-catching P (client_set client slave_id name v)
        (again_if_denied client slave_id (write_again client slave_id name v))
        (client_set-Keeps name v)
        (again_if_denied-Keeps (write_again client slave_id name v) (write_again-Keeps name v))

  pub set-Keeps : (name : String) (v : V) → Keeps P (set client slave_id name v)
  unfolding set
  set-Keeps name v =
      Keeps-bind P (ensure_logged_in client slave_id false) _ (ensure_logged_in-Keeps false)
        (λ _ s h.
          Keeps-bind P (first_heartbeat client slave_id s)
            (λ _.
              catching (client_set client slave_id name v)
                (again_if_denied client slave_id (write_again client slave_id name v)))
            (first_heartbeat-Keeps s) (λ _. write-Keeps name v) s h)

  pub read_file-Keeps :
      (file_type : ℕ) (customized_data : Option Bytes)
      → Keeps P (read_file client slave_id file_type customized_data)
  unfolding read_file
  read_file-Keeps file_type customized_data =
      let get = client_get_file client slave_id file_type customized_data in
      let gets = client_get_file-Keeps file_type customized_data in
      Keeps-bind P (ensure_logged_in client slave_id false)
        (λ _. catching get (again_if_denied client slave_id get)) (ensure_logged_in-Keeps false)
        (λ _.
          Keeps-catching P get (again_if_denied client slave_id get) gets
            (again_if_denied-Keeps get gets))

  test_write-Keeps : Keeps P (test_write client slave_id)
  unfolding test_write client_get client_set
  test_write-Keeps =
      Keeps-bind P (client_get client slave_id "time_zone")
        (λ v. client_set client slave_id "time_zone" v >>= λ _. pure true)
        (λ s h. closed.called s (get_call "time_zone" slave_id) h)
        (λ v.
          Keeps-bind P (client_set client slave_id "time_zone" v) (λ _. pure true)
            (client_set-Keeps "time_zone" v) (λ _ s h. h))

  pub has_write_permission-Keeps : Keeps P (has_write_permission client slave_id)
  unfolding has_write_permission
  has_write_permission-Keeps =
      Keeps-catching P (test_write client slave_id)
        (λ e. if is_permission_denied e then pure false else raise e) test_write-Keeps
        (λ e. Keeps-if P (is_permission_denied e) (pure false) (raise e) (λ s h. h) (λ s h. h))

  stop_client-Keeps :
      (primary : Bool) → Keeps P (if primary then client_stop client slave_id else pure tt)
  unfolding client_stop
  stop_client-Keeps true s h = closed.called s stop_call h
  stop_client-Keeps false s h = h

  pub stop-Keeps : (primary : Bool) → Keeps P (stop client slave_id primary)
  unfolding stop
  stop-Keeps primary =
      Keeps-bind P stop_heartbeat
        (λ _. (if primary then client_stop client slave_id else pure tt) >>= λ _. pure true)
        closed.stopped
        (λ _.
          Keeps-bind P (if primary then client_stop client slave_id else pure tt) (λ _. pure true)
            (stop_client-Keeps primary) (λ _ s h. h))
