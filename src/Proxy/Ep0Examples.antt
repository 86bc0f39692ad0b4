-- ===== src/Proxy/Ep0Examples.antt =====
-- Tests and concrete instances for the wheel's EP0 task: a wheel whose transfers take 1 ms, and which
-- answers each HID++ request of the bridge with feature 3 while the bridge waits.
use native.Mathlib.Nat.{le_refl, le-add_right}
use rp_wheel_bridge.Base.{
  ℕ, ◌+◌, ◌≤◌, ◌≡◌, refl, List, [], ◌∷◌, none, some, Bool, true, false, not, ◌&&◌, ◌==◌, get_or,
  length, max, ok, arith,
}
use rp_wheel_bridge.Platform.Channel.{fifo}
use rp_wheel_bridge.Platform.Usb.{Host, class_interface_out}
use rp_wheel_bridge.Device.Packet
use rp_wheel_bridge.Device.Profile.{wheel, relay_c269}
use rp_wheel_bridge.Device.Control.{Request, class, ControlOut, OutStatics, control_out}
use rp_wheel_bridge.Auth.State.{initial}
use rp_wheel_bridge.Proxy.Hidpp.{bridge_swid}
use rp_wheel_bridge.Proxy.Wheel.{Wheel, Heard, Mine, Out}
use rp_wheel_bridge.Proxy.Requests.{ping_until_answered}
use rp_wheel_bridge.Proxy.Serve.{serve_start, rapid_ping, Event, Loop, serve_loop}
use rp_wheel_bridge.Proxy.Loop.{IsServed, serve_loop-IsServed}
use rp_wheel_bridge.Proxy.Own.{IsStarted, serve_start-IsStarted, request_swid}
use rp_wheel_bridge.Proxy.Ping.{IsOver, ping_until_answered_ends, total_delay}
use rp_wheel_bridge.Proxy.Upstream.{control_out-repeat_control}
use rp_wheel_bridge.Proxy.Repeat.{repeat_control}
use rp_wheel_bridge.Proxy.GhubInit.{requests}

record Desk : Type 0 where
  time : ℕ
  told : Heard
  statics : Mine
  sent : List Out

abbrev desk_host : Host
desk_host = record {
  World = Desk;
  now = λ w. w.time;
  control_in =
      λ s buf w. record { result = ok 2; buf = buf; world = record w { time = w.time + 1 } };
  control_out = λ s buf w. (ok tt, record w { time = w.time + 1; sent = (s, buf) ∷ w.sent });
  after = λ d w. record w { time = w.time + d };
  in_time = λ s buf w. le-add_right w.time 1;
  out_time = λ s buf w. le-add_right w.time 1;
  after_time = λ d w. le_refl (w.time + d);
  in_length = λ s buf w. refl;
  in_bytes = λ s buf w h. h;
}

abbrev answer : Heard
answer = record { answered = true; answer = some (0x11 ∷ 0xff ∷ 0x00 ∷ bridge_swid ∷ 0x03 ∷ []) }

abbrev desk : Wheel
desk = record {
  host = desk_host;
  until = λ t w. record w { time = max t w.time };
  listen = λ d w. record w { time = w.time + 1; told = answer };
  heard = λ w. w.told;
  mine = λ w. w.statics;
  hear = λ h w. record w { told = h };
  put = λ m w. record w { statics = m };
  outs = λ w. w.sent;
  until_time = λ t w. max_left t w.time;
  until_later = λ t w. max_right t w.time;
  mine-put = λ m w. refl;
  mine-hear = λ h w. refl;
  mine-in = λ s buf w. refl;
  mine-out = λ s buf w. refl;
  mine-after = λ d w. refl;
  mine-until = λ t w. refl;
  mine-listen = λ d w. refl;
  heard-hear = λ h w. refl;
  now-hear = λ h w. refl;
  now-put = λ m w. refl;
  outs-in = λ s buf w. refl;
  outs-out = λ s buf w. refl;
  outs-after = λ d w. refl;
  outs-until = λ t w. refl;
  outs-listen = λ d w. refl;
  outs-hear = λ h w. refl;
  outs-put = λ m w. refl;
}
  where
    max_left : (a b : ℕ) → a ≤ max a b
    max_left a b = omega arith

    max_right : (a b : ℕ) → b ≤ max a b
    max_right a b = omega arith

abbrev boot : Desk
boot = record {
  time = 0;
  told = record { answered = false; answer = none };
  statics = record { waking = false; led = 0; hidpp_written = 0; halt_cleared = none; links = [] };
  sent = [];
}

serve_start-IsStarted_example :
    IsStarted desk boot (serve_start desk wheel rapid_ping 501 requests boot)
serve_start-IsStarted_example = serve_start-IsStarted desk wheel 501 requests boot refl

ping_until_answered_ends_example :
    let (ended, end) = ping_until_answered desk 501 boot in (ended ≡ true) × IsOver desk 0 end
ping_until_answered_ends_example = ping_until_answered_ends desk 501 boot (omega arith)

requests_delay : total_delay desk requests ≡ 4879
requests_delay = refl

requests_count : length requests ≡ 276
requests_count = refl

-- Whether each request is a short one, and not one of the bridge's own.
abbrev are_foreign : List (ℕ × List ℕ) → Bool
are_foreign [] = true
are_foreign ((ms, message) ∷ rest) =
    get_or message 0 0 == 0x10
    && not (request_swid message == bridge_swid)
    && (length message == 7)
    && are_foreign rest

requests_foreign : are_foreign requests ≡ true
requests_foreign = refl

-- A report for the wheel's IF0, in the relay role.
abbrev set_if0 : Request
set_if0 = record {
  to_interface = true;
  request_type = class;
  request = 0x09;
  value = 0x230;
  index = 0;
}

abbrev statics : OutStatics fifo
statics = record {
  auth = record { state = initial; cmds = [] };
  control_out_queue = [];
  hidpp_set_report = 0;
  dropped = 0;
}

control_out-repeat_control_example :
    let s' = (control_out fifo relay_c269 set_if0 (0x30 ∷ 0xf8 ∷ []) statics).1 in
    (msg : ControlOut fifo) × (s'.control_out_queue ≡ msg ∷ [])
    × ((w : Desk)
        → desk.outs (repeat_control desk.host msg w).1
          ≡ (class_interface_out 0x09 0x230 0 2, 0x30 ∷ 0xf8 ∷ []) ∷ w.sent)
control_out-repeat_control_example =
    control_out-repeat_control fifo desk relay_c269 set_if0 (0x30 ∷ 0xf8 ∷ []) statics refl refl
      refl (omega arith) (omega arith)

-- A request, a report with lights, a halt and a liveness check.
abbrev hidpp : ControlOut fifo
hidpp = record {
  request = 0x09;
  value = 0x210;
  index = 1;
  body = Packet.new (0x10 ∷ 0xff ∷ 0x00 ∷ 0x1c ∷ 0x00 ∷ 0x00 ∷ 0x00 ∷ []);
}

abbrev events : List (Event fifo)
events =
    Event.upstream hidpp
    ∷ Event.report (0x30 ∷ 0xf8 ∷ 0x12 ∷ 0x07 ∷ [])
    ∷ Event.recover 3
    ∷ Event.tick
    ∷ []

serve_loop-IsServed_example :
    let s : Loop = record { rev_level = none; responding = true } in
    IsServed desk events [] (desk.outs (serve_loop desk events (s, boot)).1)
serve_loop-IsServed_example =
    serve_loop-IsServed desk events (record { rev_level = none; responding = true }, boot)
