-- ===== src/Client/Login.antt =====
-- `AsyncHuaweiSolar.login` and `heartbeat` of src/huawei_solar/huawei_solar.py. `_compute_digest`,
-- which calls sha256 and hmac, and the random challenge are parameters; names and passwords are
-- given as their bytes in UTF-8.
use huawei_solar_lib.Base.{
  ℕ, zero, suc, ◌+◌, ◌≤◌, ◌≡◌, ap, ◌∙◌, inl, inr, Bool, true, false, none, [], ◌∷◌, ◌++◌, ◌==◌,
  ==_iff, Bool-cases, if◌then◌else◌,
}
use huawei_solar_lib.Base.Lists.{length, take, drop}
use huawei_solar_lib.Client.Write
use huawei_solar_lib.Exceptions.{
  is_huawei_solar_exception, Error, Result, ok, err, ok_inj, ◌>>=◌, >>=-eq-ok, guard, index_error,
  attribute_error, assertion_error, timeout_error, slave_busy_exception, slave_failure_exception,
  read_exception, pymodbus_exception,
}
use huawei_solar_lib.Payload.{Bytes}
use huawei_solar_lib.Modbus.Private
use huawei_solar_lib.Registers.Codec.Sizes.{guard-ok}
use huawei_solar_lib.Client.Retry.{OnException, IsOnException, on_exception-eq-ok}
use huawei_solar_lib.Client.Write.{
  WriteReply, not_connected, exception_response, wrote_single, wrote_multiple, connection_lost,
  timed_out,
}
use huawei_solar_lib.Client.Files
use huawei_solar_lib.Client.Files.{ExecuteReply, private_response, raised}

abbrev pub login_challenge_subcommand : ℕ
login_challenge_subcommand = 0x11

-- `bytes[i]`
abbrev pub item : Bytes → ℕ → Result ℕ
item [] i = err index_error
item (b ∷ bs) zero = ok b
item (b ∷ bs) (suc i) = item bs i

-- `response.content`, which an ExceptionResponse does not have
abbrev pub content : ExecuteReply → Result Bytes
content (private_response c) = ok c
content (Files.exception_response code) = err attribute_error
content (raised e) = err e

-- the list whose bytes are `login_bytes`
abbrev pub login_message : Bytes → Bytes → Bytes → Bytes
login_message client_challenge username hashed_password =
    (length client_challenge + 1 + length username + 1 + length hashed_password)
    ∷ (client_challenge
        ++ (length username ∷ (username ++ (length hashed_password ∷ hashed_password))))

unfoldable pub retried_on_login : Error → Bool
retried_on_login timeout_error = true
retried_on_login slave_busy_exception = true
retried_on_login slave_failure_exception = true
retried_on_login _ = false

abbrev pub max_login_tries : ℕ
max_login_tries = 4

-- `digest` is `_compute_digest`. At the attempt j the client draws the challenge `token j`, and
-- `execute j 0` and `execute j 1` are the answers to its two requests.
module _ (digest : Bytes → Bytes → Bytes) (token : ℕ → Bytes)
    (execute : ℕ → ℕ → Bytes → ExecuteReply) (username password : Bytes) where
  -- The answer to the login. A wrong answer to the client's own challenge is only logged.
  unfoldable pub accepted : Bytes → Result Bool
  accepted received = item received 1 >>= λ status.
      if status == 0 then (item received 2 >>= λ mac_length. ok true) else ok false

  unfoldable pub answer_challenge : ℕ → Bytes → Result Bool
  unfolding Private.bytes Private.encode accepted
  answer_challenge j challenge = item challenge 0 >>= λ first.
      guard (first == login_challenge_subcommand) assertion_error >>= λ _.
      Private.bytes
        (login_message (token j) username (digest password (take 16 (drop 1 challenge))))
      >>= λ login_bytes.
          Private.encode record { sub_command = 37; content = login_bytes } >>= λ sent.
          content (execute j 1 sent) >>= accepted

  -- `_do_login`
  unfoldable pub do_login : ℕ → Result Bool
  unfolding Private.encode answer_challenge
  do_login j = Private.encode record { sub_command = 36; content = 1 ∷ 0 ∷ [] } >>= λ sent.
      content (execute j 0 sent) >>= answer_challenge j

  unfoldable pub login : OnException Bool → Result Bool
  unfolding do_login retried_on_login
  login on_exception = on_exception retried_on_login max_login_tries (read_exception none) do_login

  bytes-eq-ok : (bs sent : Bytes) → Private.bytes bs ≡ ok sent → bs ≡ sent
  unfolding Private.bytes
  bytes-eq-ok bs sent h = elim (Bool-cases (Private.all_bytes bs)) [
    | inl e ↦ ok_inj (rw e at h)
    | inr e ↦ absurd (cc (rw e at h))
  ]

  content-eq-ok :
      (reply : ExecuteReply) (c : Bytes) → content reply ≡ ok c → reply ≡ private_response c
  content-eq-ok (private_response d) c h = cc
  content-eq-ok (Files.exception_response code) c h = absurd (cc h)
  content-eq-ok (raised e) c h = absurd (cc h)

  accepted-eq-true : (received : Bytes) → accepted received ≡ ok true → item received 1 ≡ ok 0
  unfolding accepted
  accepted-eq-true received h =
      let (status, e, h') = >>=-eq-ok (item received 1) _ h in
      elim (Bool-cases (status == 0)) [
        | inl zero_status ↦ e ∙ ap ok ((==_iff status 0).0 zero_status)
        | inr other ↦ absurd (cc (rw other at h'))
      ]

  -- What the first answer, and the second one, are if the login is accepted.
  Accepted : ℕ → Bytes → Type 0
  Accepted j challenge =
      (received : Bytes) × (execute j 1
          (37 ∷ login_message (token j) username (digest password (take 16 challenge)))
        ≡ private_response received)
      × (item received 1 ≡ ok 0)

  answer_challenge-eq-true :
      (j : ℕ) (challenge : Bytes)
      → answer_challenge j challenge ≡ ok true
      → (rest : Bytes) × (challenge ≡ 17 ∷ rest) × Accepted j rest
  unfolding answer_challenge Private.encode Accepted
  answer_challenge-eq-true j [] h = absurd (cc h)
  answer_challenge-eq-true j (first ∷ rest) h =
      let message : Bytes = login_message (token j) username (digest password (take 16 rest)) in
      let (_, e1, h1) =
        >>=-eq-ok (guard (first == login_challenge_subcommand) assertion_error) _ h in
      let (login_bytes, e2, h2) = >>=-eq-ok (Private.bytes message) _ h1 in
      let (sent, e3, h3) = >>=-eq-ok (Private.bytes (37 ∷ login_bytes)) _ h2 in
      let (received, e4, h4) = >>=-eq-ok (content (execute j 1 sent)) accepted h3 in
      let seventeen : first ≡ 17 = (==_iff first 17).0 (guard-ok _ _ e1) in
      let same : message ≡ login_bytes = bytes-eq-ok message login_bytes e2 in
      let same' : 37 ∷ login_bytes ≡ sent = bytes-eq-ok (37 ∷ login_bytes) sent e3 in
      (
        rest,
        ap (λ b. b ∷ rest) seventeen,
        (
          received,
          ap (execute j 1) (ap (λ bs. 37 ∷ bs) same ∙ same') ∙ content-eq-ok _ received e4,
          accepted-eq-true received h4,
        ),
      )

  -- Where `login` returns True, the inverter sent a challenge, at one of four attempts, and answered
  -- with status 0 to a message that holds the client's own challenge, the name, and the digest of
  -- the password and the first 16 bytes of the inverter's challenge, each but the first behind its
  -- length.
  pub login-eq-true :
      (on_exception : OnException Bool)
      → IsOnException on_exception
      → login on_exception ≡ ok true
      → (j : ℕ) × (challenge : Bytes) × (received : Bytes) × (j ≤ 3)
        × (execute j 0 (36 ∷ 1 ∷ 0 ∷ []) ≡ private_response (17 ∷ challenge))
        × (execute j 1 (37 ∷ login_message (token j) username (digest password (take 16 challenge)))
            ≡ private_response received)
        × (item received 1 ≡ ok 0)
  unfolding login do_login Private.encode Private.bytes Accepted
  login-eq-true on_exception laws h =
      let (j, few, one) = on_exception-eq-ok on_exception laws retried_on_login 3 _ _ true h in
      let (challenge, e, h') =
        >>=-eq-ok (content (execute j 0 (36 ∷ 1 ∷ 0 ∷ []))) (answer_challenge j) one in
      let (rest, split, (received, answered, zero_status)) =
        answer_challenge-eq-true j challenge h' in
      (
        j,
        rest,
        received,
        few,
        content-eq-ok _ challenge e ∙ ap private_response split,
        answered,
        zero_status,
      )

-- `heartbeat`, with what the client does with the request to write. Only the library's own errors are
-- caught.
unfoldable pub heartbeat : WriteReply → Result Bool
unfolding is_huawei_solar_exception
heartbeat not_connected = ok false
heartbeat (exception_response code) = ok false
heartbeat (wrote_single address written) = ok true
heartbeat (wrote_multiple address count) = ok true
heartbeat connection_lost = err pymodbus_exception
heartbeat timed_out = err timeout_error
heartbeat (Write.raised e) = if is_huawei_solar_exception e then ok false else err e
