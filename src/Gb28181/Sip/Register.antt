-- ===== src/Gb28181/Sip/Register.antt =====
-- gb28181/server.go: registration, and the devices that it stores.
pub mod Right
pub mod Guard
pub mod Challenge
pub mod Ban
use lalmax.Base.{
  ℕ, ◌+◌, Bool, true, false, List, [], ◌∷◌, ◌++◌, Option, none, some, length, ltb, ◌==◌, ◌&&◌, ◌||◌,
  not, if◌then◌else◌,
}
use lalmax.Base.Int.{ℤ, pos, negsuc}
use lalmax.Base.Text.{Text, text_eq, codes, to_lower, parse_int}
use lalmax.Base.Dict.{load, store, delete, adjust}
use lalmax.Gb28181.Sip.Auth.{Authorization, verify}
use lalmax.Gb28181.Sip.Devices.{sync_channels}
use lalmax.Gb28181.Sip.Store.{
  Device, DeviceStatus, SipServer, sip_udp_svr, sip_tcp_svr, Address, Server, Effect, respond,
  challenge, emit,
}

-- A request of a device. `from` is `none` where there is no From header with an address; `expires`
-- is the first Expires header.
pub record SipMessage : Type 0 where
  pub from : Option Address
  pub source : Text
  pub transport : Text
  pub call_id : Option Text
  pub expires : Option Text
  pub authorization : Option Authorization
  pub body : Text

abbrev pub max_register_count : ℕ
max_register_count = 3

unfoldable pub sip_server_of : Text → SipServer
unfolding text_eq
sip_server_of network = if text_eq network (codes "udp") then sip_udp_svr else sip_tcp_svr

abbrev pub is_zero : ℤ → Bool
is_zero (pos n) = n == 0
is_zero (negsuc n) = false

abbrev not_empty : Text → Bool
not_empty s = not (text_eq s [])

-- What a request with an Authorization header comes to.
pub data Checked : Type 0 where
  banned passed refused : Checked

-- Where a request came from.
unfoldable pub update_source : Address → SipMessage → Device → Device
unfolding to_lower sip_server_of
update_source from req d = record d {
  addr = from;
  net_addr = req.source;
  network = to_lower req.transport;
  sip_svr = sip_server_of (to_lower req.transport);
}

module _ {L : Type 0} where
  unfoldable pub new_device : ℕ → Text → Address → SipMessage → Server L → Device
  unfolding to_lower sip_server_of
  new_device now id from req s = record {
    id = id;
    name = [];
    manufacturer = [];
    model = [];
    register_time = now;
    update_time = now;
    last_keepalive_at = 0;
    status = DeviceStatus.register;
    sn = 0;
    addr = from;
    sip_ip = s.conf.sip_ip;
    media_ip = s.conf.media_ip;
    net_addr = req.source;
    channel_map = [];
    subscriber_call_id = [];
    subscriber_timeout = 0;
    last_sync_time = 0;
    gps_time = 0;
    longitude = [];
    latitude = [];
    network = to_lower req.transport;
    sip_svr = sip_server_of (to_lower req.transport);
  }

  unfoldable pub store_device : ℕ → Text → Address → SipMessage → Server L → Server L
  unfolding load store adjust update_source new_device
  store_device now id from req s = elim (load id s.devices) [
    | some _ ↦ record s {
      devices = adjust id (λ d. record (update_source from req d) { update_time = now }) s.devices;
    }
    | none ↦ record s { devices = store id (new_device now id from req s) s.devices }
  ]

  unfoldable pub recover_device : ℕ → Address → SipMessage → Server L → Device → Device
  unfolding update_source
  recover_device now from req s d = record (update_source from req d) {
    status = DeviceStatus.register;
    sip_ip = s.conf.sip_ip;
    media_ip = s.conf.sip_ip;
    update_time = now;
  }

  -- syncChannels of the device at `id`.
  unfoldable pub sync_device : ℕ → Text → Server L → Server L
  unfolding load adjust sync_channels
  sync_device now id s = elim (load id s.devices) [
    | none ↦ s
    | some d ↦ record s {
      devices = adjust id (λ d. (sync_channels now d).0) s.devices;
      effects = s.effects ++ (sync_channels now d).1;
    }
  ]

  unfoldable pub forget : Text → Server L → Server L
  unfolding delete
  forget id s = record s {
    device_nonce = delete id s.device_nonce;
    device_register_count = delete id s.device_register_count;
  }

  -- A device that registers is recovered, or stored.
  unfoldable pub enter : ℕ → Text → Address → SipMessage → Server L → Server L
  unfolding load adjust store_device recover_device
  enter now id from req s = elim (load id s.devices) [
    | some _ ↦ record s { devices = adjust id (recover_device now from req s) s.devices }
    | none ↦ store_device now id from req s
  ]

  -- The request is accepted.
  unfoldable pub on_pass : ℕ → Text → Address → SipMessage → Bool → Server L → Server L
  unfolding load delete forget emit sync_device enter
  on_pass now id from req is_unregister s =
      if is_unregister
      then elim (load id s.devices) [
        | none ↦ s
        | some _ ↦ emit (respond 200 []) (forget id (record s { devices = delete id s.devices }))
      ]
      else sync_device now id (emit (respond 200 []) (forget id (enter now id from req s)))

  -- The request is answered with 401, and a nonce that is made up once for each device.
  unfoldable pub on_unauthorized : Text → Text → Server L → Server L
  unfolding load store emit
  on_unauthorized id random s = elim (load id s.device_nonce) [
    | some nonce ↦ emit (challenge nonce) s
    | none ↦ emit (challenge random) (record s { device_nonce = store id random s.device_nonce })
  ]

  unfoldable pub register_count : Text → Server L → ℕ
  unfolding load
  register_count id s = elim (load id s.device_register_count) [ some n ↦ n | none ↦ 1 ]

  unfoldable pub set_count : Text → ℕ → Server L → Server L
  unfolding store
  set_count id n s = record s { device_register_count = store id n s.device_register_count }

  unfoldable pub needs_password : Server L → Bool
  unfolding text_eq
  needs_password s = not_empty s.conf.username || not_empty s.conf.password

  unfoldable pub on_checked :
      ℕ → Text → Text → Address → SipMessage → Bool → Checked × Server L → Server L
  unfolding on_pass on_unauthorized emit
  on_checked now random id from req is_unregister (banned, s) = emit (respond 403 []) s
  on_checked now random id from req is_unregister (passed, s) =
      on_pass now id from req is_unregister s
  on_checked now random id from req is_unregister (refused, s) = on_unauthorized id random s

  module _ (md5_hex : Text → Text) where
    -- Some cameras have no user name but their own id.
    unfoldable pub is_verified : Text → Authorization → Server L → Bool
    unfolding text_eq load verify
    is_verified id auth s =
        let username = if text_eq auth.username id then id else s.conf.username in
        elim (load id s.device_nonce) [
          | none ↦ false
          | some nonce ↦ verify md5_hex username s.conf.password s.conf.realm nonce auth
        ]

    unfoldable pub check_authorization : Text → Authorization → Server L → Checked × Server L
    unfolding set_count register_count is_verified
    check_authorization id auth s =
        let n = register_count id s in
        if ltb max_register_count n
        then (banned, s)
        else if is_verified id auth s
        then (passed, set_count id n s)
        else (refused, set_count id (n + 1) s)

    -- After the checks of the header: an id of 20 bytes.
    unfoldable pub register_id : ℕ → Text → Text → Address → SipMessage → Bool → Server L → Server L
    unfolding needs_password check_authorization on_checked
    register_id now random id from req is_unregister s =
        on_checked now random id from req is_unregister (
          if needs_password s
          then elim req.authorization [
            | none ↦ (refused, s)
            | some auth ↦ check_authorization id auth s
          ]
          else (passed, s))

    -- `random` is the text that RandNumString(32) gives.
    unfoldable pub on_register : ℕ → Text → SipMessage → Server L → Server L
    unfolding parse_int register_id
    on_register now random req s = elim req.from [
      | none ↦ s
      | some from ↦ elim req.expires [
        | none ↦ s
        | some value ↦ elim (parse_int 32 value) [
          | none ↦ s
          | some seconds ↦
              if length from.user == 20
              then register_id now random from.user from req (is_zero seconds) s
              else s
        ]
      ]
    ]
