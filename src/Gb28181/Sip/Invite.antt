-- ===== src/Gb28181/Sip/Invite.antt =====
-- gb28181/channel.go and inviteoption.go: the parts of an invitation, and of the request that carries it.
use lalmax.Base.{
  ℕ, ◌+◌, ◌-◌, ◌%◌, ◌^◌, Bool, true, false, List, [], ◌∷◌, ◌++◌, none, some, length, take, drop,
  ltb, ◌==◌, ◌&&◌, ◌||◌, not, if◌then◌else◌, u16, u32,
}
use lalmax.Base.Int.{ℤ, pos, negsuc}
use lalmax.Base.Outcome.{Outcome, ok, panic, then_outcome}
use lalmax.Base.Text.{
  Text, codes, text_eq, split, last_index, decimal, decimal_int, decimal3, parse_int,
}
use lalmax.Gb28181.Sip.Devices.{off_status}
use lalmax.Gb28181.Sip.Store.{
  clear, PlayInfo, Channel, Device, Method, Request, Config, MediaServer,
}

abbrev pub is_zero : ℤ → Bool
is_zero (pos n) = n == 0
is_zero (negsuc n) = false

pub record InviteOptions : Type 0 where
  pub start : ℤ
  pub end : ℤ
  pub ssrc_text : Text
  pub ssrc : ℕ
  pub media_port : ℕ

abbrev pub no_options : InviteOptions
no_options = record { start = pos 0; end = pos 0; ssrc_text = []; ssrc = 0; media_port = 0 }

unfoldable pub is_live : InviteOptions → Bool
is_live o = is_zero o.start || is_zero o.end

unfoldable pub options_text : InviteOptions → Text
unfolding decimal_int
options_text o = codes "t=" ++ (decimal_int o.start ++ (codes " " ++ decimal_int o.end))

-- uint32 of an integer.
unfoldable pub u32_of : ℤ → ℕ
u32_of (pos n) = u32 n
u32_of (negsuc n) = 2 ^ 32 - 1 - n % 2 ^ 32

unfoldable pub create_ssrc : Text → ℕ → InviteOptions → InviteOptions
unfolding decimal3 parse_int u32_of
create_ssrc serial number o =
    let text = codes "0" ++ (serial ++ decimal3 number) in
    record o { ssrc_text = text; ssrc = elim (parse_int 64 text) [ none ↦ 0 | some n ↦ u32_of n ] }

-- Bytes 10 to 12 of an id are its type.
unfoldable pub can_invite : Channel → Bool
unfolding text_eq
can_invite c =
    let info = c.channel_info in
    let type_id = take 3 (drop 10 info.channel_id) in
    (length info.channel_id == 20)
    && (not (text_eq info.status off_status)
        && (is_zero info.parental
            && (not info.media_info.is_invite
                && (text_eq type_id (codes "132") || text_eq type_id (codes "131")))))

unfoldable pub next_number : ℕ → ℕ
next_number n = let m = u16 (n + 1) in if ltb 999 m then 1 else m

-- The number and the serial that an invitation begins with; `random` is RandNumString(6).
unfoldable pub begin_invite : Text → Channel → Channel
unfolding next_number
begin_invite random c = record c {
  number = next_number c.number;
  channel_info = record c.channel_info {
    serial = if length c.channel_info.serial == 0 then random else c.channel_info.serial;
  };
}

-- The host that a request to a channel names.
unfoldable pub channel_host : Config → Device → Channel → Outcome Text
unfolding text_eq last_index decimal_int
channel_host conf d c =
    if ltb (length c.channel_info.channel_id) 9
    then panic
    else if text_eq (take 9 c.channel_info.channel_id) conf.realm
    then ok conf.realm
    else if is_zero c.channel_info.port
    then ok d.net_addr
    else elim (last_index b':' d.net_addr) [
      | none ↦ panic
      | some i ↦ ok (take i d.net_addr ++ (codes ":" ++ decimal_int c.channel_info.port))
    ]

-- CreateRequst of a channel: the device's next sequence number, and the channel as the target.
unfoldable pub channel_request :
    Config → Method → Text → Text → Device → Channel → Outcome (Request × Device)
unfolding channel_host
channel_request conf method subject body d c = then_outcome (channel_host conf d c) (λ host. ok (
  record {
    method = method;
    to_user = c.channel_info.channel_id;
    to_host = host;
    seq_no = u32 (d.sn + 1);
    destination = d.net_addr;
    network = d.network;
    subject = subject;
    body = body;
  },
  record d { sn = d.sn + 1 },
))

abbrev pub join_lines : List Text → Text
join_lines [] = []
join_lines (l ∷ rest) = l ++ (13 ∷ 10 ∷ join_lines rest)

unfoldable pub sdp_info : InviteOptions → PlayInfo → Device → Channel → List Text
unfolding options_text text_eq decimal
sdp_info o p d c =
    let tcp = text_eq p.net_work (codes "tcp") in
    codes "v=0"
    ∷ (codes "o=" ++ (c.channel_info.channel_id ++ (codes " 0 0 IN IP4 " ++ d.media_ip)))
    ∷ codes "s=Play"
    ∷ (codes "c=IN IP4 " ++ d.media_ip)
    ∷ options_text o
    ∷ (codes "m=video "
        ++ (decimal o.media_port
            ++ (codes " " ++ ((if tcp then codes "TCP/" else []) ++ codes "RTP/AVP 96"))))
    ∷ codes "a=recvonly"
    ∷ codes "a=rtpmap:96 PS/90000"
    ∷ (codes "y=" ++ o.ssrc_text)
    ∷ (if tcp then codes "a=setup:passive" ∷ codes "a=connection:new" ∷ [] else [])

unfoldable pub subject_text : Config → InviteOptions → Channel → Text
subject_text conf o c =
    c.channel_info.channel_id
    ++ (codes ":" ++ (o.ssrc_text ++ (codes "," ++ (conf.serial ++ codes ":0"))))

-- "y" carries the SSRC; "m" is read for a log line, and panics with fewer than three parts.
unfoldable pub answer_part : List Text → InviteOptions → Outcome InviteOptions
unfolding text_eq split parse_int u32_of
answer_part (key ∷ value ∷ rest) o =
    if text_eq key (codes "y") && not (text_eq value [])
    then ok (elim (parse_int 64 value) [ none ↦ o | some n ↦ record o { ssrc = u32_of n } ])
    else if text_eq key (codes "m") && not (text_eq value [])
    then (if ltb (length (split value b' ')) 3 then panic else ok o)
    else ok o
answer_part _ o = ok o

unfoldable pub answer_lines : List Text → InviteOptions → Outcome InviteOptions
unfolding answer_part split
answer_lines [] o = ok o
answer_lines (l ∷ rest) o = then_outcome (answer_part (split l b'=') o) (answer_lines rest)

-- The channel after an answer of 200.
unfoldable pub accepted :
    Text → Text → PlayInfo → InviteOptions → MediaServer → Request → Channel → Channel
unfolding decimal
accepted call_id stream_name p o m r c = record c {
  ack_req = some (record {
    call_id = call_id;
    request = record r { method = Method.ack; subject = []; body = [] };
  });
  play_info = some p;
  channel_info = record c.channel_info {
    media_info = record c.channel_info.media_info {
      is_invite = true;
      ssrc = o.ssrc;
      stream_name = stream_name;
      media_key = p.net_work ++ decimal m.listen_port;
    };
  };
}

unfoldable pub get_call_id : Channel → Text
get_call_id c = elim c.ack_req [ none ↦ [] | some a ↦ a.call_id ]

unfoldable pub clear_media : Channel → Channel
unfolding clear
clear_media c = record c {
  channel_info = record c.channel_info { media_info = clear c.channel_info.media_info };
}
