-- ===== src/Gb28181/Sip/Store.antt =====
-- gb28181/server.go, device.go, channel.go and mediaserver_t.go: the state of the signalling server.
use lalmax.Base.{ℕ, ◌^◌, ◌-◌, min, Bool, false, List, [], ◌∷◌, ◌++◌, Option}
use lalmax.Base.Int.{ℤ}
use lalmax.Base.Text.{Text}
use lalmax.Gb28181.Ports.{AvailConnPool}

pub record MediaInfo : Type 0 where
  pub is_invite : Bool
  pub ssrc : ℕ
  pub stream_name : Text
  pub single_port : Bool
  pub dump_file_name : Text
  pub media_key : Text

abbrev pub no_media_info : MediaInfo
no_media_info = record {
  is_invite = false;
  ssrc = 0;
  stream_name = [];
  single_port = false;
  dump_file_name = [];
  media_key = [];
}

-- `MediaInfo.Clear`, which leaves the key.
unfoldable pub clear : MediaInfo → MediaInfo
clear m = record no_media_info { media_key = m.media_key }

pub record PlayInfo : Type 0 where
  pub net_work : Text
  pub device_id : Text
  pub channel_id : Text
  pub stream_name : Text
  pub single_port : Bool
  pub dump_file_name : Text

-- MediaInfo, which Go embeds, is one of the fields.
pub record ChannelInfo : Type 0 where
  pub channel_id : Text
  pub parent_id : Text
  pub name : Text
  pub manufacturer : Text
  pub model : Text
  pub owner : Text
  pub civil_code : Text
  pub address : Text
  pub port : ℤ
  pub parental : ℤ
  pub safety_way : ℤ
  pub register_way : ℤ
  pub secrecy : ℤ
  pub status : Text
  pub longitude : Text
  pub latitude : Text
  pub stream_name : Text
  pub serial : Text
  pub media_info : MediaInfo
  pub sn : ℕ

pub data Method : Type 0 where
  message invite ack bye subscribe : Method

-- A request as far as the code chooses it. The random tags and the fixed headers are left out.
pub record Request : Type 0 where
  pub method : Method
  pub to_user : Text
  pub to_host : Text
  pub seq_no : ℕ
  pub destination : Text
  pub network : Text
  pub subject : Text
  pub body : Text

-- A saved ACK, with its Call-ID.
pub record Ack : Type 0 where
  pub call_id : Text
  pub request : Request

pub record Channel : Type 0 where
  pub gps_time : ℕ
  pub number : ℕ
  pub ack_req : Option Ack
  pub play_info : Option PlayInfo
  pub channel_info : ChannelInfo

pub data DeviceStatus : Type 0 where
  register recover online offline alarmed : DeviceStatus

-- The SIP server that a device is reached by.
pub data SipServer : Type 0 where
  sip_udp_svr sip_tcp_svr : SipServer

pub record Address : Type 0 where
  pub display_name : Text
  pub user : Text
  pub host : Text

pub record Device : Type 0 where
  pub id : Text
  pub name : Text
  pub manufacturer : Text
  pub model : Text
  pub register_time : ℕ
  pub update_time : ℕ
  pub last_keepalive_at : ℕ
  pub status : DeviceStatus
  pub sn : ℕ
  pub addr : Address
  pub sip_ip : Text
  pub media_ip : Text
  pub net_addr : Text
  pub channel_map : List (Text × Channel)
  pub subscriber_call_id : Text
  pub subscriber_timeout : ℕ
  pub last_sync_time : ℕ
  pub gps_time : ℕ
  pub longitude : Text
  pub latitude : Text
  pub network : Text
  pub sip_svr : SipServer

pub record Config : Type 0 where
  pub serial : Text
  pub realm : Text
  pub username : Text
  pub password : Text
  pub quick_login : Bool
  pub sip_ip : Text
  pub sip_port : ℕ
  pub media_ip : Text
  pub listen_port : ℕ
  pub multi_port_max_increment : ℕ
  pub keepalive_interval : ℕ

pub record MediaServer : Type 0 where
  pub listen_port : ℕ
  pub media_key : Text

-- A status code and a body; `challenge` is a 401 with a nonce. A media server starts to accept on its
-- listener, closes one connection, or disposes of itself.
pub data Effect : Type 0 where
  respond : ℕ → Text → Effect
  challenge : Text → Effect
  send : SipServer → Request → Effect
  start_media : MediaServer → Effect
  close_conn : MediaServer → Text → Effect
  dispose_media : MediaServer → Effect

pub record Server (L : Type 0) : Type 0 where
  pub conf : Config
  pub devices : List (Text × Device)
  pub device_nonce : List (Text × Text)
  pub device_register_count : List (Text × ℕ)
  pub media_server_map : List (Text × MediaServer)
  pub udp_avail_conn_pool : AvailConnPool L
  pub tcp_avail_conn_pool : AvailConnPool L
  pub effects : List Effect

-- `time.Since`, which stops at the largest duration.
unfoldable pub since : ℕ → ℕ → ℕ
since now t = min (now - t) (2 ^ 63 - 1)

abbrev pub second : ℕ
second = 1000000000

module _ {L : Type 0} where
  unfoldable pub emit : Effect → Server L → Server L
  emit e s = record s { effects = s.effects ++ (e ∷ []) }
