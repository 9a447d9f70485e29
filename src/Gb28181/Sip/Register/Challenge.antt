-- ===== src/Gb28181/Sip/Register/Challenge.antt =====
-- gb28181/server.go and auth.go: a device that answers the challenge is registered.
use lalmax.Base.{◌≡◌, List, none, some}
use lalmax.Base.Text.{Text}
use lalmax.Base.Dict.{load}
use lalmax.Gb28181.Sip.Store.{Server}

abbrev pub IsStored : {V : Type 0} → Text → List (Text × V) → Type 0
IsStored {V} id m = (v : V) × (load id m ≡ some v)

module _ {L : Type 0} where
  -- The device is there, and nothing is held against it.
  pub record IsRegistered (id : Text) (s : Server L) : Type 0 where
    pub device : IsStored id s.devices
    pub nonce : load id s.device_nonce ≡ none
    pub count : load id s.device_register_count ≡ none
