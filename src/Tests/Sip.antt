-- ===== src/Tests/Sip.antt =====
-- gb28181: the signalling at concrete inputs.
use lalmax.Base.{ℕ, ◌≤◌, ◌≡◌, refl, arith, true, false, List, [], ◌∷◌, ◌++◌, Option, none, some}
use lalmax.Base.Int.{pos}
use lalmax.Base.Text.{Text, codes, text_eq, parse_int, parse_nat}
use lalmax.Base.Dict.{load}
use lalmax.Gb28181.Ports.{AvailConnPool}
use lalmax.Gb28181.Sip.Auth.{Authorization, colon}
use lalmax.Gb28181.Sip.Register.{
  SipMessage, needs_password, register_count, max_register_count, on_register,
}
use lalmax.Gb28181.Sip.Register.Guard.{IsComplete, IsRefusal, on_register-IsRefusal}
use lalmax.Gb28181.Sip.Register.Right.{IsRight, IsAuthorized, digest_answer}
use lalmax.Gb28181.Sip.Register.Ban.{Attempt, attempts, IsFrom, IsWrong, attempts-banned}
use lalmax.Gb28181.Sip.Store.{Address, Config, Server, Device, respond, challenge}

abbrev no_ports : AvailConnPool ℕ
no_ports = record { min_port = 1; max_port = 0; last_port = 0; on_listen_with_port = none }

abbrev pub any_port : AvailConnPool ℕ
any_port = record {
  min_port = 30001;
  max_port = 30009;
  last_port = 30001;
  on_listen_with_port = some (λ p. some p);
}

abbrev pub camera_id : Text
camera_id = codes "34020000001320000001"

abbrev pub settings : Config
settings = record {
  serial = codes "34020000002000000001";
  realm = codes "3402000000";
  username = codes "admin";
  password = codes "secret";
  quick_login = false;
  sip_ip = codes "10.0.0.1";
  sip_port = 5060;
  media_ip = codes "10.0.0.2";
  listen_port = 30000;
  multi_port_max_increment = 10;
  keepalive_interval = 60;
}

abbrev pub server_with : List (Text × Device) → List (Text × ℕ) → Server ℕ
server_with devices counts = record {
  conf = settings;
  devices = devices;
  device_nonce = [];
  device_register_count = counts;
  media_server_map = [];
  udp_avail_conn_pool = any_port;
  tcp_avail_conn_pool = no_ports;
  effects = [];
}

abbrev pub camera_address : Address
camera_address = record { display_name = []; user = camera_id; host = codes "10.0.0.9" }

abbrev pub request_with : Option Authorization → Text → SipMessage
request_with auth body = record {
  from = some camera_address;
  source = codes "10.0.0.9:5060";
  transport = codes "UDP";
  call_id = none;
  expires = some (codes "3600");
  authorization = auth;
  body = body;
}

-- A stand-in for MD5 that is never empty.
abbrev pub mark : Text → Text
mark x = 49 ∷ x

abbrev wrong_answer : Authorization
wrong_answer = record { username = codes "admin"; uri = codes "sip:x"; response = codes "no" }

complete :
    (auth : Option Authorization) → IsComplete (request_with auth []) camera_address (pos 3600)
unfolding parse_int parse_nat
complete auth = record { sender = refl; id_length = refl; expires = (codes "3600", refl, refl) }

locked : (d : List (Text × Device)) (n : List (Text × ℕ)) → needs_password (server_with d n) ≡ true
unfolding needs_password text_eq
locked d n = refl

-- Not the answer to any nonce.
wrong : (id : Text) (s : Server ℕ) → ¬ IsRight mark id wrong_answer s
unfolding digest_answer
wrong id s (n, known, e) = absurd (ground arith)

unauthorized : ¬ IsAuthorized mark camera_id (some wrong_answer) (server_with [] [])
unauthorized (few, right) = wrong camera_id (server_with [] []) right

on_register-IsRefusal_example :
    IsRefusal
      (server_with [] [])
      (on_register mark 100 (codes "abc") (request_with (some wrong_answer) []) (server_with [] []))
on_register-IsRefusal_example =
    on_register-IsRefusal mark 100 (codes "abc") (request_with (some wrong_answer) [])
      camera_address (pos 3600) (server_with [] []) (complete (some wrong_answer)) (locked [] [])
      unauthorized

abbrev right_answer : Authorization
right_answer = record {
  username = codes "admin";
  uri = codes "sip:x";
  response = mark (
      colon (mark (colon (codes "admin") (colon (codes "3402000000") (codes "secret"))))
        (colon (codes "abc") (mark (colon (codes "REGISTER") (codes "sip:x")))));
}

abbrev attempt : Option Authorization → Attempt
attempt auth = record { now = 100; random = codes "abc"; req = request_with auth [] }

attempt-IsFrom : (auth : Option Authorization) → IsFrom camera_address (attempt auth)
attempt-IsFrom auth = (pos 3600, complete auth)

attempt-IsWrong : (s : Server ℕ) → IsWrong mark camera_id (attempt (some wrong_answer)) s
attempt-IsWrong s = (wrong_answer, refl, wrong camera_id s)

no_count : load camera_id (server_with [] []).device_register_count ≡ none
unfolding load
no_count = refl

-- Three wrong answers, then the right one and a request with none.
attempts-banned_example :
    let t =
      attempts mark
        (attempt (some wrong_answer)
          ∷ attempt (some wrong_answer)
          ∷ attempt (some wrong_answer)
          ∷ [])
        (server_with [] []) in
    (t.devices ≡ [])
    × ((n : Text) × (load camera_id t.device_nonce ≡ some n)
        × (attempts mark (attempt (some right_answer) ∷ attempt none ∷ []) t
            ≡ record t { effects = t.effects ++ (respond 403 [] ∷ challenge n ∷ []) }))
attempts-banned_example =
    attempts-banned mark camera_address (attempt (some wrong_answer)) (attempt (some wrong_answer))
      (attempt (some wrong_answer)) (attempt (some right_answer) ∷ attempt none ∷ [])
      (server_with [] []) (locked [] []) no_count (attempt-IsFrom (some wrong_answer))
      (attempt-IsFrom (some wrong_answer)) (attempt-IsFrom (some wrong_answer))
      (attempt-IsWrong (server_with [] []))
      (attempt-IsWrong (attempts mark (attempt (some wrong_answer) ∷ []) (server_with [] [])))
      (attempt-IsWrong (
        attempts mark (attempt (some wrong_answer) ∷ attempt (some wrong_answer) ∷ [])
          (server_with [] [])))
      (attempt-IsFrom (some right_answer), (attempt-IsFrom none, tt))

few : register_count camera_id (server_with [] []) ≤ max_register_count
unfolding register_count load
few = omega arith

right :
    right_answer.response
    ≡ digest_answer mark
        (codes "admin")
        (codes "3402000000")
        (codes "secret")
        (codes "abc")
        right_answer.uri
unfolding digest_answer
right = refl
