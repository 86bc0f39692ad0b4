-- ===== src/Proxy/Examples.antt =====
-- Tests and concrete instances for the wheel's proxy.
use rp_wheel_bridge.Base.{
  ℕ, Option, some, Bool, ◌≡◌, refl, List, [], ◌∷◌, none, true, false, replicate, ok, err, arith,
}
use rp_wheel_bridge.Platform.Channel.{fifo}
use rp_wheel_bridge.Platform.Usb.{stall, disconnected}
use rp_wheel_bridge.Device.Packet
use rp_wheel_bridge.Device.Packet.{Packet}
use rp_wheel_bridge.Device.Streams.{Sink}
use rp_wheel_bridge.Device.Link.{queue_len}
use rp_wheel_bridge.Proxy.Hidpp.{Messages, foreign, swid}
use rp_wheel_bridge.Proxy.Input.{Transfer}
use rp_wheel_bridge.Hid.Finder.{HidInterface, Endpoint}
use rp_wheel_bridge.Proxy.Layout.{layout, relay_layout, find}
use rp_wheel_bridge.Proxy.RevLights.{
  rev_lights_all, rev_lights, set_level, rev_mask, level_of, count_ones, unlit, asked_by, wanted,
  IsQuiet, rev_lights_all_lem,
}

-- A notification, an answer to the bridge and an error answer to the bridge.
abbrev packets : List Packet
packets =
    Packet.new (0x12 ∷ 0xff ∷ 0x1f ∷ 0x00 ∷ 0x20 ∷ [])
    ∷ Packet.new (0x11 ∷ 0xff ∷ 0x05 ∷ 0x1b ∷ 0x07 ∷ [])
    ∷ Packet.new (0x10 ∷ 0xff ∷ 0xff ∷ 0x05 ∷ 0x0b ∷ 0x02 ∷ [])
    ∷ []

abbrev messages : Messages fifo
messages = record {
  wheel_hidpp = 0;
  wheel_answered = false;
  bridge_answer = none;
  upstream = record { queue = []; dropped = 0 };
}

packets-foreign : foreign packets ≡ Packet.new (0x12 ∷ 0xff ∷ 0x1f ∷ 0x00 ∷ 0x20 ∷ []) ∷ []
unfolding foreign Packet.new Packet.bytes swid
packets-foreign = refl

-- A report, a transfer that fails, a short report, another report and a detach.
abbrev transfers : List Transfer
transfers =
    ok (replicate 30 1) ∷ err stall ∷ ok (3 ∷ []) ∷ ok (replicate 30 0x88) ∷ err disconnected ∷ []

abbrev upstream : Sink fifo queue_len
upstream = record { queue = []; dropped = 0 }

-- Three lights, the same again, another report, and all five.
abbrev reports : List (List ℕ)
reports =
    (0x30 ∷ 0xf8 ∷ 0x12 ∷ 0x07 ∷ [])
    ∷ (0x30 ∷ 0xf8 ∷ 0x12 ∷ 0x07 ∷ [])
    ∷ (0x30 ∷ 0xf8 ∷ 0x09 ∷ 0x01 ∷ [])
    ∷ (0x30 ∷ 0xf8 ∷ 0x12 ∷ 0x1f ∷ [])
    ∷ []

reports_levels : (rev_lights_all 9 reports unlit).last ≡ some 10
unfolding rev_lights_all rev_lights set_level rev_mask level_of count_ones
reports_levels = refl

rev_lights_all_lem_example :
    let s = rev_lights_all 9 reports unlit in
    (asked_by s.sent ≡ wanted 9 none reports) × IsQuiet 9 s.sent
rev_lights_all_lem_example = rev_lights_all_lem 9 reports (ground arith)

-- Three packets for a queue with room for two, with a stall between them and one after a detach.
abbrev reads : List Transfer
reads = ok (1 ∷ []) ∷ err stall ∷ ok (2 ∷ []) ∷ ok (3 ∷ []) ∷ err disconnected ∷ ok (4 ∷ []) ∷ []

abbrev narrow : Sink fifo 2
narrow = record { queue = []; dropped = 0 }

-- A stream at 1 kHz, with a command in it.
abbrev stream : List (ℕ × List ℕ)
stream =
    (10, 1 ∷ 0 ∷ 0 ∷ 0 ∷ 1 ∷ [])
    ∷ (11, 1 ∷ 0 ∷ 0 ∷ 0 ∷ 1 ∷ [])
    ∷ (12, 1 ∷ 0 ∷ 0 ∷ 0 ∷ 5 ∷ [])
    ∷ (13, 1 ∷ 0 ∷ 0 ∷ 0 ∷ 1 ∷ [])
    ∷ (2012, 1 ∷ 0 ∷ 0 ∷ 0 ∷ 1 ∷ [])
    ∷ []

-- The wheel's interfaces, with an OUT endpoint at IF2 only: enough for the proxy, not for the relay.
abbrev endpoint : ℕ → Bool → Endpoint
endpoint address inward = record { address = address; is_in = inward; is_interrupt = true }

abbrev wheel_ifaces : List (Option HidInterface)
wheel_ifaces =
    some (record {
      number = 0;
      report_desc_len = 141;
      in_ep = some (endpoint 0x81 true);
      out_ep = none;
    })
    ∷ some (record {
      number = 1;
      report_desc_len = 84;
      in_ep = some (endpoint 0x82 true);
      out_ep = none;
    })
    ∷ some (record {
      number = 2;
      report_desc_len = 30;
      in_ep = some (endpoint 0x83 true);
      out_ep = some (endpoint 0x03 false);
    })
    ∷ none
    ∷ []

wheel_layout :
    (layout wheel_ifaces
      ≡ some (record {
        if0_in = endpoint 0x81 true;
        if1_in = endpoint 0x82 true;
        if2_in = endpoint 0x83 true;
        if2_out = endpoint 0x03 false;
      }))
    × (relay_layout wheel_ifaces ≡ none)
unfolding layout relay_layout find
wheel_layout = (refl, refl)
