-- ===== src/Tests/Sessions.antt =====
-- A bridge that logs in, and whose write is denied once.
use huawei_solar_lib.Base.{ℕ, refl, inl, Bool, true, false, List, [], ◌∷◌}
use huawei_solar_lib.Exceptions.{Result, ok, err, permission_denied}
use huawei_solar_lib.Bridge.SessionState.{
  Call, login_call, heartbeat_call, set_call, Client, Session,
}
use huawei_solar_lib.Bridge.Session.{login, set}
use huawei_solar_lib.Bridge.Session.Invariant.{IsSession}
use huawei_solar_lib.Bridge.Session.Steps.{
  initial, beat, Reachable, created, then_step, beats, Reachable-IsClosed, reachable-IsSession,
}
use huawei_solar_lib.Bridge.Session.Laws.{login-Keeps, set-Keeps}
use huawei_solar_lib.Bridge.Session.Returns.{Replied, set-Replied}

-- The first write, which is the third call, is denied.
abbrev reply_to_set : List (Call ℕ) → Result Bool
reply_to_set (heartbeat_call s ∷ login_call slave u p ∷ []) = err permission_denied
reply_to_set _ = ok true

abbrev client : Client ℕ
client = record {
  login = λ calls slave u p. ok true;
  heartbeat = λ calls slave. ok true;
  set = λ calls name v slave. reply_to_set calls;
  get_file = λ calls file_type customized_data slave. ok [];
  get = λ calls name slave. ok 60;
  stop = λ calls. ok tt;
}

abbrev logged_in : Session ℕ
unfolding login
logged_in = (login client 1 "installer" "secret" initial).1

abbrev written : Session ℕ
unfolding set
written = (set client 1 "time_zone" 60 logged_in).1

-- A write, while which the reply to the heartbeat is that the inverter knows of no login.
abbrev interrupted : Session ℕ
interrupted = beat 1 (ok false) written

interrupted-Reachable : Reachable interrupted
unfolding set login logged_in written
interrupted-Reachable =
    then_step written interrupted
      (set-Keeps Reachable Reachable-IsClosed client 1 "time_zone" 60 logged_in
        (login-Keeps Reachable Reachable-IsClosed client 1 "installer" "secret" initial created))
      (beats written 1 (ok false) (inl refl))

reachable-IsSession_example : IsSession interrupted
reachable-IsSession_example = reachable-IsSession interrupted interrupted-Reachable

set-Replied_example :
    Replied (set_call "time_zone" 60 1) (λ calls. client.set calls "time_zone" 60 1) true written
unfolding logged_in written
set-Replied_example = set-Replied client 1 "time_zone" 60 logged_in true written refl
