-- ===== src/Proxy/Layout.antt =====
-- The interface layouts that `run` of src/proxy.rs and `run` of src/relay.rs ask for.
use rp_wheel_bridge.Base.{ℕ, List, [], ◌∷◌, Option, none, some, ◌==◌, if◌then◌else◌}
use rp_wheel_bridge.Device.Control.{if_input, if_hidpp}
use rp_wheel_bridge.Hid.Finder.{HidInterface, Endpoint}
use rp_wheel_bridge.Proxy.Requests.{if_ffb}

-- `ifaces.iter().flatten().find(|i| i.number == n)`
unfoldable pub find : ℕ → List (Option HidInterface) → Option HidInterface
find n [] = none
find n (none ∷ ifaces) = find n ifaces
find n (some i ∷ ifaces) = let rest = find n ifaces in if i.number == n then some i else rest

abbrev pub in_of : Option HidInterface → Option Endpoint
in_of none = none
in_of (some i) = i.in_ep

abbrev pub out_of : Option HidInterface → Option Endpoint
out_of none = none
out_of (some i) = i.out_ep

infixl 5 ◌>>=◌
abbrev ◌>>=◌ : {A B : Type 0} → Option A → (A → Option B) → Option B
none >>= k = none
some a >>= k = k a

pub record Layout : Type 0 where
  pub if0_in : Endpoint
  pub if1_in : Endpoint
  pub if2_in : Endpoint
  pub if2_out : Endpoint

unfoldable pub layout : List (Option HidInterface) → Option Layout
unfolding find
layout ifaces = do
  if0_in ← in_of (find if_input ifaces)
  if1_in ← in_of (find if_hidpp ifaces)
  if2_in ← in_of (find if_ffb ifaces)
  if2_out ← out_of (find if_ffb ifaces)
  some (record { if0_in = if0_in; if1_in = if1_in; if2_in = if2_in; if2_out = if2_out })

-- The c269's layout, with an OUT endpoint of IF0.
pub record RelayLayout : Type 0 where
  pub shared : Layout
  pub if0_out : Endpoint

unfoldable pub relay_layout : List (Option HidInterface) → Option RelayLayout
unfolding layout
relay_layout ifaces = do
  shared ← layout ifaces
  if0_out ← out_of (find if_input ifaces)
  some (record { shared = shared; if0_out = if0_out })
