-- ===== src/Fmp4/HlsServer.antt =====
-- fmp4/hls/server.go: the HLS sessions by stream name.
use lalmax.Base.{ℕ, List, [], ◌∷◌, ◌++◌, none, some}
use lalmax.Base.Outcome.{Outcome, ok, then_outcome}
use lalmax.Base.Text.{Text}
use lalmax.Base.Dict.{load, store, delete}
use lalmax.Fmp4.Message.{Message}
use lalmax.Fmp4.Hls.{Library, HlsSession, new_hls_session, on_msg, on_stop}

-- The sessions by stream name; those that have ended wait to be cleaned. `cleaned` are those that
-- cleanInvalidSession has let go.
pub record HlsServer : Type 0 where
  pub sessions : List (Text × HlsSession)
  pub invalid_sessions : List HlsSession
  pub cleaned : List HlsSession

unfoldable pub server_new_session : Text → HlsServer → HlsServer
unfolding store new_hls_session
server_new_session name v = record v { sessions = store name new_hls_session v.sessions }

unfoldable pub server_on_stop : Text → HlsServer → HlsServer
unfolding load delete
server_on_stop name v = elim (load name v.sessions) [
  | none ↦ v
  | some s ↦ record v {
    sessions = delete name v.sessions;
    invalid_sessions = v.invalid_sessions ++ (s ∷ []);
  }
]

unfoldable pub stop_all : List HlsSession → List HlsSession
unfolding on_stop
stop_all [] = []
stop_all (s ∷ rest) = on_stop s ∷ stop_all rest

-- One tick of cleanInvalidSession.
unfoldable pub clean_invalid_sessions : HlsServer → HlsServer
unfolding stop_all
clean_invalid_sessions v = record v {
  invalid_sessions = [];
  cleaned = v.cleaned ++ stop_all v.invalid_sessions;
}

module _ (lib : Library) {M : Type 0} (i : Message M) where
  unfoldable pub server_on_msg : ℕ → Text → M → HlsServer → Outcome HlsServer
  unfolding load store on_msg
  server_on_msg now name m v = elim (load name v.sessions) [
    | none ↦ ok v
    | some s ↦
        then_outcome (on_msg lib i now m s)
          (λ t. ok (record v { sessions = store name t v.sessions }))
  ]
