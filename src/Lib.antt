-- ===== src/Lib.antt =====
-- A model of lalmax, a media server built on lal, and what is proved of it. It covers the code that
-- computes: the parsing and writing of MPEG program streams (gb28181/mpegps), the cutting of a media
-- connection's bytes and the pool of its ports (gb28181/mediaserver/conn.go,
-- gb28181/avail_conn_pool.go), the commands for cameras (gb28181/ptz.go), the signalling of
-- GB28181 (the rest of gb28181), the fan-out of a stream with its GOP cache (hook), the fragmented MP4 of
-- its consumers (fmp4), the RTP packets of WebRTC (rtc), SRT (srt), and the HTTP interface with its notifications (server).
--
-- How the parts work together. Devices register with the signalling server by SIP and send catalogs of
-- their channels; an HTTP request invites a channel, for which a media server listens on a port of a
-- pool, and the device sends its stream there. A media connection's Serve hands the payload of each RTP
-- packet to PsDemuxer.Input, which reads it through a bit stream and hands frames to OnFrame; from there
-- they go to lal. (Conn.Demuxer, which cuts program stream packets out of bytes, is modelled too, but
-- Serve does not call it.) A stream of lal comes back as messages to HookSession.OnMsg, which gives them to
-- the consumers and feeds them to the GOP cache, from which a later consumer catches up.
--
-- The files, with the code that each is about:
--   Base            numbers, Boolean tests, lists, machine words, Text (Go's strings), Dict (maps with
--                   texts as keys), and the outcomes of code that can panic: `ok`, `panic`,
--                   `below_zero` (a Go offset would be negative) and `stuck` (the fuel of a loop ran
--                   out)
--   Mpegps          gb28181/mpegps: BitStream and BitStreamWriter (bitstream.go), BitList (the list of
--                   bits that their specifications are about), StartCode, Crc and Verify (util.go),
--                   Proto (ps_proto.go and pes_proto.go), Error (ps_proto.go), Demuxer
--                   (ps_demuxer.go), Muxer (ps_muxer.go), Nalu (what is used of lal's avc and hevc)
--   Gb28181         gb28181: Conn (mediaserver/conn.go), Ports (avail_conn_pool.go), Ptz (ptz.go)
--   Gb28181.Sip     gb28181: Store (the state), Xml (xml.go), Auth (auth.go), Devices (device.go),
--                   Register, Message, Watch and Media (server.go), Invite and Call (inviteoption.go
--                   and channel.go), Control (the Ptz methods of channel.go), Http (http_logic.go),
--                   Run (all of them as events), Keys (what holds after any events)
--   Hook            hook: GopCache (gop_cache.go), Session (hooksession.go and hookmanager.go), Rtmp
--                   (what is used of lal's base.RtmpMsg)
--   Srt             srt: StreamId (stream_id.go, and getStreamInfo of server.go), Publisher (pub.go),
--                   Subscriber (sub.go)
--   Rtc             rtc: Safari (the cutting and numbering of SafariHEVCRtpEncoder), Packer (the rest
--                   of packer.go), Unpacker (unpacker.go), Sessions (whepsession.go and
--                   jessibucasession.go)
--   Fmp4            fmp4: Message (what is used of lal's base.RtmpMsg), HttpFmp4 (http-fmp4/session.go),
--                   Hls and HlsServer (hls/session.go and hls/server.go)
--   Server          server: Middle (middle.go), Notify (http_notify.go), Router (router.go)
--   Tests           the theorems at concrete inputs
-- A Go method is a function with the method's name in snake_case, from its receiver to the changed
-- receiver, with the result first. A child of a module that holds definitions has theorems about them.
--
-- Numbers. Every number is a natural number; a conversion or a shift to a machine word is written with
-- its remainder (u8, u16, u32, u64). Where Go's int can be negative the value is an integer of Base.Int.
--
-- Loops. Most are structural recursion. The others take fuel, whose amount is given where the loop is
-- called: the number of ports and one more for Acquire, the bytes of the slice for the loops that move
-- forward in it. PsDemuxer.Input and the loop of srt/pub.go take their fuel from the caller, since
-- they can run for ever.
--
-- Parameters. What is read of lal (NALU types, RTMP messages) and the function that listens on a port
-- are arguments, and so are MD5, the reading of XML bodies, the writing of a control command, the
-- texts of RandNumString, the time, and what a device answers. The callbacks OnFrame, OnPacket and
-- FeedAvPacket are lists in the state, oldest first.
--
-- Signalling. The maps Devices, DeviceNonce and DeviceRegisterCount, which are global in Go, and the
-- server's own fields are one record, Server; a map is a list of its entries, in whose order Range goes.
-- A request and its answer are one step: what other goroutines do between the two is not modelled.
-- Answers, requests and the calls of a media server are the list `effects`, oldest first. A time is the
-- number of nanoseconds from Go's zero time on; time.Since stops at the largest duration. Texts are
-- lists of bytes.
--
-- Not modelled: sockets, goroutines and locks (each call under a mutex is one step), the SIP stack,
-- HTTP and JSON, WebRTC's connections, the boxes of MP4 and the muxer of HLS, which are libraries', and all logging
-- and printing.
pub mod Base
pub mod Mpegps
pub mod Gb28181
pub mod Hook
pub mod Srt
pub mod Rtc
pub mod Fmp4
pub mod Server
pub mod Tests
