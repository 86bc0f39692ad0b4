-- ===== src/Proxy/RunExamples.antt =====
-- Tests and concrete instances for the runs of the proxy and the layouts it asks for.
use rp_wheel_bridge.Base.{ℕ, ◌≡◌, refl, List, [], ◌∷◌, Option, none, some, true, false}
use rp_wheel_bridge.Platform.Channel.{fifo}
use rp_wheel_bridge.Hid.Finder.{HidInterface, Endpoint, find_interfaces}
use rp_wheel_bridge.Device.Tables.{
  c269_if0_report_desc, c272_if0_report_desc, hidpp_report_desc, ffb_report_desc,
}
use rp_wheel_bridge.Device.Profile.{c269, mirror_c272, wheel}
use rp_wheel_bridge.Device.Link.{Queues}
use rp_wheel_bridge.Device.Builder.{task_configuration, documented}
use rp_wheel_bridge.Device.Task.{task, on_bus}
use rp_wheel_bridge.Proxy.Layout.{layout, relay_layout, find}
use rp_wheel_bridge.Proxy.Presented.{shared_layout, with_out, task_configuration-layout}
use rp_wheel_bridge.Proxy.Run.{Run, run, links_of, task-links_of}

-- The relay finds the c269 that the bridge presents.
task_configuration-layout_example :
    let ifaces = find_interfaces (task_configuration documented c269) in
    (layout ifaces ≡ some (shared_layout documented c269))
    × (relay_layout ifaces ≡ with_out documented (shared_layout documented c269) c269.if0_out)
task_configuration-layout_example =
    task_configuration-layout documented c269 0x0110 0x0111 0x0111 c269_if0_report_desc
      hidpp_report_desc ffb_report_desc refl

-- The mirror's c272 has no OUT endpoint on IF0: it is no device for the relay.
mirror_is_no_backend :
    relay_layout (find_interfaces (task_configuration documented mirror_c272)) ≡ none
mirror_is_no_backend =
    (task_configuration-layout documented mirror_c272 0x0111 0x0111 0x0111 c272_if0_report_desc
      hidpp_report_desc ffb_report_desc refl).1

abbrev endpoint : Endpoint
endpoint = record { address = 0x81; is_in = true; is_interrupt = true }

abbrev iface : ℕ → Option HidInterface
iface n =
    some
      (record { number = n; report_desc_len = 30; in_ep = some endpoint; out_ep = some endpoint })

-- A wheel that is served, with one recovery of the force feedback, and one whose EP0 does not open.
abbrev runs : List Run
runs =
    record {
      ifaces = iface 0 ∷ iface 1 ∷ iface 2 ∷ none ∷ [];
      opens = true;
      started = 100;
      reports = (200, true) ∷ (9000, false) ∷ (9010, true) ∷ [];
      ended = 20000;
    }
    ∷ record {
      ifaces = iface 0 ∷ iface 1 ∷ iface 2 ∷ none ∷ [];
      opens = false;
      started = 21000;
      reports = [];
      ended = 21000;
    }
    ∷ []

runs_links : links_of runs ≡ (200, true) ∷ (9000, false) ∷ (9010, true) ∷ (20000, false) ∷ []
unfolding links_of run layout find
runs_links = refl

abbrev queues : Queues fifo
queues = record {
  input_in = [];
  hidpp_in = [];
  control_out = [];
  ffb_in = [];
  ffb_out = [];
  if0_out = [];
}

task-links_of_example : on_bus fifo (task fifo wheel none 0 (links_of runs) queues) ≡ false
task-links_of_example = task-links_of fifo runs none 0 queues
