-- ===== src/Gb28181/Sip/Call/Lookup.antt =====
-- gb28181/channel.go: what is found under two keys after a change.
use lalmax.Base.{ℕ, ◌≡◌, refl, ap, ◌∙◌, arith, some}
use lalmax.Base.Text.{Text, text_eq_refl}
use lalmax.Base.Dict.{load, adjust, load-adjust}
use lalmax.Gb28181.Sip.Call.{find_channel, adjust_device, adjust_channel}
use lalmax.Gb28181.Sip.Store.{Channel, Device, Server}

module _ {L : Type 0} where
  -- Both maps hold what was found.
  abbrev pub Holds : Text → Text → Device → Channel → Server L → Type 0
  Holds did cid d c s = (load did s.devices ≡ some d) × (load cid d.channel_map ≡ some c)

  pub find_channel-Holds :
      (did cid : Text) (d : Device) (c : Channel) (s : Server L)
      → find_channel did cid s ≡ some (d, c)
      → Holds did cid d c s
  unfolding find_channel
  find_channel-Holds did cid d c s found = ground arith

  pub Holds-find_channel :
      (did cid : Text) (d : Device) (c : Channel) (s : Server L)
      → Holds did cid d c s
      → find_channel did cid s ≡ some (d, c)
  unfolding find_channel
  Holds-find_channel did cid d c s h = rw (find_channel, h.0, h.1) refl

  pub adjust_channel-Holds :
      (did cid : Text) (f : Channel → Channel) (d : Device) (c : Channel) (s : Server L)
      → Holds did cid d c s
      → Holds did cid
          (record d { channel_map = adjust cid f d.channel_map })
          (f c)
          (adjust_channel did cid f s)
  unfolding adjust_channel adjust_device
  adjust_channel-Holds did cid f d c s (there, inside) = (
    rw
        (
          load-adjust did did (λ d. record d { channel_map = adjust cid f d.channel_map })
              s.devices,
          text_eq_refl did,
          there,
        )
        refl,
    rw (load-adjust cid cid f d.channel_map, text_eq_refl cid, inside) refl,
  )

  pub sn-Holds :
      (did cid : Text) (n : ℕ) (d : Device) (c : Channel) (s : Server L)
      → Holds did cid d c s
      → Holds did cid (record d { sn = n }) c (adjust_device did (λ d. record d { sn = n }) s)
  unfolding adjust_device
  sn-Holds did cid n d c s (there, inside) = (
    rw (load-adjust did did (λ d. record d { sn = n }) s.devices, text_eq_refl did, there) refl,
    inside,
  )

  pub same_devices-Holds :
      (did cid : Text) (d : Device) (c : Channel) (s t : Server L)
      → t.devices ≡ s.devices
      → Holds did cid d c s
      → Holds did cid d c t
  same_devices-Holds did cid d c s t same (there, inside) = (ap (load did) same ∙ there, inside)
