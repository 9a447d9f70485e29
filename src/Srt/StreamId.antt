-- ===== src/Srt/StreamId.antt =====
-- srt/stream_id.go, parseStreamID, and srt/server.go, getStreamInfo.
use lalmax.Base.{ℕ, List, [], ◌∷◌, Option, none, some, if◌then◌else◌}
use lalmax.Base.Outcome.{Outcome, ok, panic, then_outcome}
use lalmax.Base.Text.{text_eq, contains, trim_prefix, trim_left, split}

pub record StreamId : Type 0 where
  pub user : List ℕ
  pub host : List ℕ
  pub resource : List ℕ
  pub session_id : List ℕ
  pub type : List ℕ
  pub mode : List ℕ

abbrev pub no_stream_id : StreamId
no_stream_id = record { user = []; host = []; resource = []; session_id = []; type = []; mode = [] }

-- "#!::"
abbrev pub magic : List ℕ
magic = b'#' ∷ b'!' ∷ b':' ∷ b':' ∷ []

abbrev set_if : List ℕ → ℕ → List ℕ → List ℕ → List ℕ
set_if key letter value old = if text_eq key (letter ∷ []) then value else old

unfoldable pub set_field : List ℕ → List ℕ → StreamId → StreamId
unfolding text_eq
set_field key value id = record {
  user = set_if key b'u' value id.user;
  host = set_if key b'h' value id.host;
  resource = set_if key b'r' value id.resource;
  session_id = set_if key b's' value id.session_id;
  type = set_if key b't' value id.type;
  mode = set_if key b'm' value id.mode;
}

-- One part between commas; `none` is the error.
unfoldable pub parse_part : List ℕ → StreamId → Option StreamId
unfolding contains split set_field
parse_part s id =
    if contains s (b'=' ∷ [])
    then elim (split s b'=') [ key ∷ value ∷ [] ↦ some (set_field key value id) | _ ↦ none ]
    else some id

unfoldable pub parse_parts : List (List ℕ) → StreamId → Option StreamId
unfolding parse_part
parse_parts [] id = some id
parse_parts (s ∷ rest) id = elim (parse_part s id) [ none ↦ none | some id' ↦ parse_parts rest id' ]

unfoldable pub parse_stream_id : List ℕ → Option StreamId
unfolding contains trim_prefix split parse_parts
parse_stream_id s =
    if contains s magic then parse_parts (split (trim_prefix s magic) b',') no_stream_id else none

-- gosrt's connection types.
pub data ConnType : Type 0 where
  reject publish subscribe : ConnType

pub record StreamInfo : Type 0 where
  pub stream_name : List ℕ
  pub mode : ConnType

-- "publish" and "request".
abbrev pub publish_text : List ℕ
publish_text = b'p' ∷ b'u' ∷ b'b' ∷ b'l' ∷ b'i' ∷ b's' ∷ b'h' ∷ []

abbrev pub request_text : List ℕ
request_text = b'r' ∷ b'e' ∷ b'q' ∷ b'u' ∷ b'e' ∷ b's' ∷ b't' ∷ []

unfoldable pub set_mode : List ℕ → StreamInfo → StreamInfo
unfolding text_eq
set_mode value info =
    if text_eq value publish_text
    then record info { mode = publish }
    else if text_eq value request_text
    then record info { mode = subscribe }
    else info

-- One part between commas, split at "=". A name "h" or "m" with no value panics at `ss[1]`.
unfoldable pub info_part : List (List ℕ) → StreamInfo → Outcome StreamInfo
unfolding text_eq set_mode
info_part [] info = panic
info_part (name ∷ []) info =
    if text_eq name (b'h' ∷ []) then panic else if text_eq name (b'm' ∷ []) then panic else ok info
info_part (name ∷ value ∷ rest) info =
    if text_eq name (b'h' ∷ [])
    then ok (record info { stream_name = value })
    else if text_eq name (b'm' ∷ [])
    then ok (set_mode value info)
    else ok info

unfoldable pub info_parts : List (List ℕ) → StreamInfo → Outcome StreamInfo
unfolding info_part split
info_parts [] info = ok info
info_parts (v ∷ rest) info = then_outcome (info_part (split v b'=') info) (info_parts rest)

unfoldable pub get_stream_info : List ℕ → Outcome StreamInfo
unfolding trim_left split info_parts
get_stream_info s =
    info_parts (split (trim_left s magic) b',') (record { stream_name = []; mode = reject })
