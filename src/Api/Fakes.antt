-- ===== src/Api/Fakes.antt =====
-- internal/api/v1/test-helpers.go: the names and hashes that the handlers' tests share, and the fake
-- streams that stand for a client's end of Add, Get and Sync.
pub mod Streams
pub mod Mocks
mod Tests
use gophkeeper.Base.{
  ℕ, suc, String, Bool, true, false, Option, none, some, List, [], ◌∷◌, ◌++◌, drop,
}
use gophkeeper.Base.Go.{new, eof, Error, Outcome, ok, err, panic, Prog, pure}
use gophkeeper.Base.Results.{◌>>=◌}
use gophkeeper.Base.Utf8.{to_bytes}
use gophkeeper.Hash
use gophkeeper.Hash.{Crypto, time_cost, memory_cost, threads, key_len}
use gophkeeper.Hash.Compare.{alg_version}
use gophkeeper.Hash.Phc.{generate_phc}
use gophkeeper.Model.{Bytes}
use gophkeeper.Api.KeeperService.{AddRequest, StreamResponse}

abbrev pub msg_expected_error : String
msg_expected_error = "expected error"

abbrev pub key_db_fail : String
key_db_fail = "db-fail"

abbrev pub key_dummy_user_id : String
key_dummy_user_id = "dummy-user-id"

abbrev pub dummy_id : String
dummy_id = "dummyUUID"

abbrev pub dummy_secret : String
dummy_secret = "secret"

abbrev pub key_session_fail : String
key_session_fail = "session-fail"

module _ {S : Type 0} (crypto : Crypto S) where
  -- a login hash under the secret of the tests
  unfoldable pub fixture_login : String → Bytes
  unfolding Hash.generate_hmac to_bytes
  fixture_login name = Hash.generate_hmac crypto (to_bytes name) (to_bytes dummy_secret)

  abbrev pub fixture_login_db_fail : Bytes
  fixture_login_db_fail = fixture_login key_db_fail

  abbrev pub fixture_login_new_user : Bytes
  fixture_login_new_user = fixture_login "new-user"

  abbrev pub fixture_login_not_found : Bytes
  fixture_login_not_found = fixture_login "not-found"

  abbrev pub fixture_login_create_failed : Bytes
  fixture_login_create_failed = fixture_login "create-fail"

  abbrev pub fixture_login_session_fail : Bytes
  fixture_login_session_fail = fixture_login key_session_fail

  abbrev pub fixture_login_session_fail_register : Bytes
  fixture_login_session_fail_register = fixture_login "session-fail-register"

  abbrev pub fixture_login_already_exists : Bytes
  fixture_login_already_exists = fixture_login "already-exists"

  unfoldable pub fixture_password_hash : Outcome Bytes
  unfolding to_bytes
  fixture_password_hash =
      crypto.id_key (to_bytes "very-long-dummy-bytes") (to_bytes "salt") time_cost memory_cost
        threads key_len

  unfoldable pub fixture_phc : Outcome String
  unfolding fixture_password_hash generate_phc to_bytes
  fixture_phc = do
    hash ← fixture_password_hash
    ok (generate_phc hash (to_bytes "salt") alg_version time_cost memory_cost threads)

module _ (Timestamp : Type 0) where
  -- `none` for nil requests; of the response only whether it was sent is kept, as it is empty.
  pub record FakeAddStream : Type 0 where
    pub resp : Option (Unit {0})
    pub reqs : Option (List (AddRequest Timestamp))
    pub i : ℕ
    pub sent_close : Bool

  abbrev pub new_fake_add_stream : Option (List (AddRequest Timestamp)) → FakeAddStream
  new_fake_add_stream reqs = record { resp = none; reqs = reqs; i = 0; sent_close = false }

  -- the requests from the i-th on
  abbrev pub next_of :
      List (AddRequest Timestamp) → FakeAddStream → Outcome (AddRequest Timestamp) × FakeAddStream
  next_of [] f = (err eof, f)
  next_of (r ∷ rs) f = (ok r, record f { i = suc f.i })

  abbrev pub recv_of :
      Option (List (AddRequest Timestamp)) → Prog FakeAddStream (AddRequest Timestamp)
  recv_of none f = (err (new "[]requests is nil"), f)
  recv_of (some reqs) f = next_of (drop f.i reqs) f

  abbrev pub recv : Prog FakeAddStream (AddRequest Timestamp)
  recv f = recv_of f.reqs f

  abbrev close_of : Bool → Prog FakeAddStream (Unit {0})
  close_of true f = (err (new "SendAndClose called twice"), f)
  close_of false f = (ok tt, record f { sent_close = true; resp = some tt })

  abbrev pub send_and_close : Prog FakeAddStream (Unit {0})
  send_and_close f = close_of f.sent_close f

  -- Both server streams keep what was sent; their other methods return nil.
  pub record FakeServerStream : Type 0 where
    pub responses : List (StreamResponse Timestamp)

  abbrev pub new_fake_server_stream : FakeServerStream
  new_fake_server_stream = record { responses = [] }

  abbrev pub send : StreamResponse Timestamp → Prog FakeServerStream (Unit {0})
  send response f = (ok tt, record f { responses = f.responses ++ response ∷ [] })
