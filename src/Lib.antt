-- ===== src/Lib.antt =====
-- rp-wheel-bridge: an RP2350 board between a PC steering wheel (c272) and a PlayStation 5, to which
-- it presents itself as the PlayStation version of the wheel (c269). This library models the core of
-- the firmware and proves what makes it work.
--
-- The program. Core 0 runs the USB device that the console sees (src/device.rs), which answers every
-- control request on the spot; core 1 runs the USB host (src/usb_host.rs) with the hub (src/hub.rs),
-- the wheel (src/proxy.rs) or DriveHub (src/relay.rs), and the licensed controller that signs the
-- console's authentication nonces (src/auth.rs). The cores share statics and bounded queues. Input
-- reports of the wheel are translated (src/input_map.rs); a device that is not the wheel is probed
-- for the log (src/hid.rs), which goes through a pipe to a UART (src/uart_log.rs).
--
-- Which file models what. The functions keep the source's names.
--   Base                 tests, lists with native lengths, bytes: shared by all modules
--   Platform/Channel     embassy-sync's Channel as an interface, with an instance `fifo`
--   Platform/Usb         control pipes and the clock of embassy-usb-host as an interface
--   InputMap             src/input_map.rs: the bit maps, neutral, remap, translate
--     Bits, Layout, Controls: the bit maps on all bytes, the report's layout, every control
--   Device               src/device.rs
--     Packet, Tables, Profile: the data; Control: control_in and control_out; Requests: what they do;
--     Link: wheel_link and follow_wheel; Streams: a round of the OUT endpoint loops; Queued: what a
--     queue holds and what became of the packets that left it; Delivery: forward_in, with the packet
--     whose write waits; Builder: the USB device that task builds; Found: what a host finds in it;
--     Task: the start of task; Stats: STATS and the other counters, with log_stats of src/proxy.rs
--     and src/relay.rs; Accounted: what the lines of log_stats account for
--   Auth                 src/auth.rs
--     State: STATE, CMD, get_report, set_report; Console: what the console may do between two
--     transfers; Replies: what it is told; Signer: the exchange with the signer; Handle: handle and
--     serve; Poll, Publish, Nonce, Safety: its termination, its results and its invariant
--   Hid                  src/hid.rs
--     Descriptor: log_report_summary; Keys, Reports: its table; Scan: its loop; Items: descriptors
--     written from items; Finder, Interfaces: find_interfaces; Probe, Reads: probe and what it asks
--     a device; Monitor, Watch: monitor_interface and what it logs; Gaps: GapMeter; Hex, HexRead:
--     Hex, log_hex_dump and log_hidpp, and their text read back
--   Hub                  src/hub.rs
--     Ports: events; Assigned, Lost: which child serves which port; Reset: reset_port and enumerate;
--     Enumerate: what enumerate gives; Errors: which errors are logged; Children: child, and the
--     whole with its signals; Addresses, RoundTrip: which addresses are given back
--   UartLog              src/uart_log.rs
--     Line: LineBuf; Records: log and push; Task: task beside the loggers; Accounts: how the lines
--     account for the records
--   UsbHost              src/usb_host.rs
--     Strings, StringsSafe: the string descriptors and their slices; Utf16: how they are shown;
--     ConfigLog: ConfigLogger's on_other; Devices: classify, serve_device and enumerate_with_retry;
--     HostTask: the loop of host_task
--   Proxy                src/proxy.rs and src/ghub_init.rs
--     Layout: the interfaces that run asks for; Ins: forward_in; Sampler; Hidpp: the wheel's HID++
--     messages; Input: forward_input; RevLights: rev_lights; Wheel: what the EP0 task works on;
--     Requests: the bridge's own requests; Repeat: repeat_control; Serve: serve_ep0; Loop: what its
--     loop sends; Sent, Own: what it sends at its start; Ping: the wake-up; GhubInit: REQUESTS;
--     Upstream: a request from the console to the wheel; Ffb: forward_ffb_out; Recovery, Written,
--     Forwarded: how it recovers and what it writes; FfbPath, HidppPath, InputPath: between the console
--     and the wheel, both cores; InPath: the same for forward_in with any closure; FfbIn: that of the
--     wheel's force feedback; Run: run as the device sees it; Presented: its layout on the device that Device.Builder
--     builds
--   Relay                src/relay.rs: Forward: forward_out; Ep0: serve_ep0; Ep0Safety: the statics of
--     the authentication through it; Run: run as the device sees it; Upstream: the closures of its IN
--     endpoints; Downstream: the console's IF0 output on its way to DriveHub
--   The modules Examples of each part hold tests and a concrete instance of each result.
--
-- How state is modelled. A function that works on statics takes them as a record and returns them.
-- A transfer, a pause and the time are effects on a world that the interface Host leaves open: its
-- laws say that time does not run backwards and that a buffer keeps its length. While core 1 waits
-- for a transfer or a pause, the console may make any requests: Auth.Signer.Signing says only that
-- the statics then change by requests of the console. Proxy.Wheel.Wheel adds what the EP0 task
-- shares with the task that reads the wheel, and the requests that were sent; Proxy.Ffb.Stream is an
-- OUT pipe with the transfers made, each with its outcome; Hid.Probe.Asked a host with the requests
-- that were sent. A loop over events is a function of the list of events, so a result about all lists is one about all
-- runs; the hub and its children, the loggers and the task that drains them, the loops that count
-- and log_stats, and the two tasks between which input, force feedback or HID++ is queued take turns
-- in any order. A write to the console takes its report when it is begun and ends later, well or not;
-- a packet whose write or transfer fails is lost, as in the source, and follow_wheel may clear the
-- queues at any time in the wheel role. What host_task waits for is a list of events that fits its phases (Reaches).
-- embassy-usb's Builder is an interface too, whose laws say what descriptors each call writes; what
-- goes into it is a list of calls. The reports to wheel_link are lists with their times, as if its
-- queue of four never overflowed (Device.Link has the queue by itself). Panics are not modelled, but
-- for the slices of the string descriptors and the indices of ConfigLogger: an access out of range
-- gives a default.
--
-- Bounds. Bytes, u16 and u32 values are native numbers; where the source wraps or saturates, the
-- definitions do (% 2 ^ 32 for the counters, min for saturating_add). Fuel: the polling of the
-- signer takes 501 rounds (10 s in steps of 20 ms), the pings to the wheel as many, the wait for a
-- port 101 (500 ms in steps of 5 ms), the descriptor loop as many as the descriptor has bytes, and
-- push as many as it has bytes to write, at most 320. The enumeration of a device is tried without a
-- limit, so its fuel is the number of the attempt at which the device answers.
--
-- Not modelled: start-up (src/main.rs, build.rs, init of src/uart_log.rs and src/usb_host.rs), which
-- sets up clocks, pins and executors; the joins of the loops, each of which is modelled; opening
-- pipes (open, open_ep0), whose outcome is an argument; what is only logged, but for what is named
-- above: so not log_device_descriptor, speed_name and class_name, and not the counters of
-- rp-pio-usb-host that log_stats logs as well. embassy, the USB stacks and core::fmt (but for hex
-- digits) are parameters.
mod Base
pub mod Platform
pub mod InputMap
pub mod Device
pub mod Hid
pub mod Hub
pub mod UartLog
pub mod UsbHost
pub mod Proxy
pub mod Relay
pub mod Auth
