-- ===== src/Bridge/Session.antt =====
-- The login and heartbeat of `HuaweiSolarBridge`, src/huawei_solar/bridge.py, and its `set` and
-- `_read_file`, which log in again. The state is that of one bridge, with the calls of the client
-- that it made, the last one first. The functions are the methods, each run by itself; `Steps` has the
-- pieces between which methods and the heartbeat task give way to one another.
pub mod Actions
pub mod Invariant
pub mod Laws
pub mod Returns
pub mod Steps
use Prim.Native.String.{String}
use text.Mathlib.Text.{◌==◌ as str_eq}
use huawei_solar_lib.Base.{
  ℕ, suc, Bool, true, false, not, ◌&&◌, Option, none, some, List, [], ◌∷◌, if◌then◌else◌, ◌==◌,
}
use huawei_solar_lib.Base.Lists.{filter_by}
use huawei_solar_lib.Exceptions.{
  Error, Result, ok, err, guard, assertion_error, permission_denied, invalid_credentials,
  is_huawei_solar_exception,
}
use huawei_solar_lib.Payload.{Bytes}
use huawei_solar_lib.Bridge.SessionState.{
  Call, Client, Session, Action, after, ◌>>=◌, pure, raise, handle, catching, truth, text_of,
  cancel, login_call, heartbeat_call, set_call, get_file_call, get_call, stop_call,
}

module _ {V : Type 0} where
  abbrev get_session : Action V (Session V)
  get_session s = (ok s, s)

  unfoldable pub stop_heartbeat : Action V (Unit {0})
  stop_heartbeat s =
      (ok tt, record s { heartbeat_enabled = false; running = cancel s.heartbeat_task s.running })

  -- The end of `start_heartbeat`, which both callers call within the login lock.
  unfoldable pub create_task : Action V (Unit {0})
  create_task s = (
    ok tt,
    record s {
      heartbeat_enabled = true;
      heartbeat_task = some s.created;
      created = suc s.created;
      running = s.created ∷ s.running;
      crashed = false;
    },
  )

  -- a task that is stored is stopped first
  unfoldable pub start_over : Option ℕ → Action V (Unit {0})
  unfolding stop_heartbeat create_task
  start_over none = create_task
  start_over (some task) = stop_heartbeat >>= λ _. create_task

  unfoldable pub start_heartbeat : Action V (Unit {0})
  unfolding start_over
  start_heartbeat s = start_over s.heartbeat_task s

  unfoldable pub save_credentials : String → String → Action V (Unit {0})
  save_credentials username password s =
      (ok tt, record s { username = some username; password = some password })

  abbrev pub called : {A : Type 0} → Call V → (List (Call V) → Result A) → Action V A
  called call reply s = (reply s.calls, record s { calls = call ∷ s.calls })

abbrev pub is_permission_denied : Error → Bool
is_permission_denied permission_denied = true
is_permission_denied _ = false

module _ {V : Type 0} (client : Client V) (slave_id : ℕ) where
  unfoldable pub client_login : Option ℕ → String → String → Action V Bool
  client_login slave username password =
      called (login_call slave username password)
        (λ calls. client.login calls slave username password)

  unfoldable pub client_heartbeat : Action V Bool
  client_heartbeat = called (heartbeat_call slave_id) (λ calls. client.heartbeat calls slave_id)

  unfoldable pub client_set : String → V → Action V Bool
  client_set name value =
      called (set_call name value slave_id) (λ calls. client.set calls name value slave_id)

  unfoldable pub client_get_file : ℕ → Option Bytes → Action V Bytes
  client_get_file file_type customized_data =
      called (get_file_call file_type customized_data slave_id)
        (λ calls. client.get_file calls file_type customized_data slave_id)

  unfoldable pub accept : Bool → Action V (Unit {0})
  unfolding start_heartbeat
  accept accepted = if accepted then start_heartbeat else raise invalid_credentials

  -- `login` without a slave, and the heartbeat if it succeeds
  unfoldable pub login_again : Session V → Action V (Unit {0})
  unfolding client_login accept
  login_again s =
      if truth s.password
      then (client_login none (text_of s.username) (text_of s.password) >>= accept)
      else raise assertion_error

  unfoldable pub login_if_needed : Session V → Action V (Unit {0})
  unfolding login_again
  login_if_needed s = if truth s.username && not s.heartbeat_enabled then login_again s else pure tt

  unfoldable pub ensure_logged_in : Bool → Action V Bool
  unfolding stop_heartbeat login_if_needed
  ensure_logged_in force = do
    _ ← if force then stop_heartbeat else pure tt
    s ← get_session
    _ ← login_if_needed s
    pure true

  unfoldable pub accept_new : String → String → Bool → Action V Bool
  unfolding save_credentials start_heartbeat
  accept_new username password accepted =
      if accepted
      then (save_credentials username password >>= λ _. start_heartbeat >>= λ _. pure true)
      else raise invalid_credentials

  unfoldable pub login : String → String → Action V Bool
  unfolding client_login accept_new
  login username password =
      client_login (some slave_id) username password >>= accept_new username password

  -- the heartbeat before a write, whose errors of the library are dropped
  unfoldable pub first_heartbeat : Session V → Action V (Unit {0})
  unfolding client_heartbeat is_huawei_solar_exception
  first_heartbeat s =
      if s.heartbeat_enabled
      then catching (client_heartbeat >>= λ _. pure tt)
          (λ e. if is_huawei_solar_exception e then pure tt else raise e)
      else pure tt

  -- `except PermissionDenied`: a forced login, and the call once more
  unfoldable pub again_if_denied : {A : Type 0} → Action V A → Error → Action V A
  unfolding ensure_logged_in
  again_if_denied retry e s =
      if is_permission_denied e && truth s.username
      then (ensure_logged_in true >>= λ _. retry) s
      else (err e, s)

  unfoldable pub write_again : String → V → Action V Bool
  unfolding client_heartbeat client_set
  write_again name value = do _ ← client_heartbeat; client_set name value

  unfoldable pub set : String → V → Action V Bool
  unfolding ensure_logged_in first_heartbeat client_set write_again again_if_denied
  set name value = do
    _ ← ensure_logged_in false
    s ← get_session
    _ ← first_heartbeat s
    catching (client_set name value) (again_if_denied (write_again name value))

  unfoldable pub read_file : ℕ → Option Bytes → Action V Bytes
  unfolding ensure_logged_in client_get_file again_if_denied
  read_file file_type customized_data = do
    _ ← ensure_logged_in false
    catching (client_get_file file_type customized_data)
        (again_if_denied (client_get_file file_type customized_data))

  unfoldable pub client_get : String → Action V V
  client_get name = called (get_call name slave_id) (λ calls. client.get calls name slave_id)

  unfoldable pub client_stop : Action V (Unit {0})
  client_stop = called stop_call client.stop

  -- `_write_test_register`
  abbrev pub write_test_register : String
  write_test_register = "time_zone"

  unfoldable pub test_write : Action V Bool
  unfolding client_get client_set
  test_write =
      client_get write_test_register >>= λ v. client_set write_test_register v >>= λ _. pure true

  unfoldable pub has_write_permission : Action V Bool
  unfolding test_write
  has_write_permission =
      catching test_write (λ e. if is_permission_denied e then pure false else raise e)

  -- `stop`, of a bridge for the client's own slave or of another one
  unfoldable pub stop : Bool → Action V Bool
  unfolding stop_heartbeat client_stop
  stop primary =
      stop_heartbeat >>= λ _. (if primary then client_stop else pure tt) >>= λ _. pure true
