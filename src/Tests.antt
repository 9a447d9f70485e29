-- ===== src/Tests.antt =====
-- The theorems at concrete inputs, by the part of the program that they are about.
mod Calls
mod Fmp4
mod Gb28181
mod Hook
mod Mpegps
mod Rtc
mod Server
mod Sip
mod Srt
