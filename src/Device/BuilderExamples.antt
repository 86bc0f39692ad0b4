-- ===== src/Device/BuilderExamples.antt =====
-- Tests and concrete instances for the device that is built and for its start.
use rp_wheel_bridge.Base.{◌≡◌, refl, [], ◌∷◌, none, some, true, false}
use rp_wheel_bridge.Platform.Channel.{fifo}
use rp_wheel_bridge.Hid.Finder.{find_interfaces}
use rp_wheel_bridge.Device.Tables.{c269_if0_report_desc, hidpp_report_desc, ffb_report_desc}
use rp_wheel_bridge.Device.Profile.{c269, wheel, relay}
use rp_wheel_bridge.Device.Link.{Queues}
use rp_wheel_bridge.Device.Builder.{task_configuration, documented}
use rp_wheel_bridge.Device.Found.{presents, task_configuration-found}
use rp_wheel_bridge.Device.Task.{task, on_bus, IsSteady, task_lem}

-- The c269 as the console finds it.
task_configuration-found_example :
    find_interfaces (task_configuration documented c269)
    ≡ presents documented 0 193 c269.if0_in c269.if0_out
      ∷ presents documented 1 84 c269.if1_in none
      ∷ presents documented 2 30 c269.if2_in (some c269.if2_out)
      ∷ none
      ∷ []
task_configuration-found_example =
    task_configuration-found documented c269 0x0110 0x0111 0x0111 c269_if0_report_desc
      hidpp_report_desc ffb_report_desc refl

abbrev queues : Queues fifo
queues = record {
  input_in = [];
  hidpp_in = [];
  control_out = [];
  ffb_in = [];
  ffb_out = [];
  if0_out = [];
}

-- The wheel is reported gone, attached, and gone again.
task_lem_example :
    let p = task fifo wheel none 0 ((10, false) ∷ (20, true) ∷ (30, false) ∷ []) queues in
    (on_bus fifo p ≡ false) × IsSteady fifo p
task_lem_example =
    task_lem {ch = fifo} wheel none 0 ((10, false) ∷ (20, true) ∷ (30, false) ∷ []) queues

-- The relay's device waits for DriveHub.
relay_waits : on_bus fifo (task fifo relay none 0 [] queues) ≡ false
relay_waits = (task_lem {ch = fifo} relay none 0 [] queues).0
