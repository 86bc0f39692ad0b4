-- ===== src/Auth/State.antt =====
-- The console side of src/auth.rs: the shared `STATE`, the command queue, and the two control
-- requests that work on them. The queue's length and the other constants are the source's.
use rp_wheel_bridge.Base.{
  ℕ, ◌+◌, List, [], ◌∷◌, Option, none, some, Bool, true, false, not, ◌||◌, ◌==◌, leb, if◌then◌else◌,
  get_or, set, replicate, copy_at,
}
use mathlib.Core.Option
use rp_wheel_bridge.Platform.Channel.{Channels}
use rp_wheel_bridge.Device.Packet
use rp_wheel_bridge.Device.Packet.{Packet}

abbrev pub id_nonce : ℕ
id_nonce = 0xf0

abbrev pub id_signature : ℕ
id_signature = 0xf1

abbrev pub id_state : ℕ
id_state = 0xf2

abbrev pub id_reset : ℕ
id_reset = 0xf3

abbrev pub signature_len : ℕ
signature_len = 64

abbrev pub state_len : ℕ
state_len = 16

abbrev pub reset_len : ℕ
reset_len = 8

abbrev pub signature_pages : ℕ
signature_pages = 19

abbrev pub state_signing : ℕ
state_signing = 0x10

abbrev pub state_ready : ℕ
state_ready = 0x00

abbrev pub default_reset : List ℕ
default_reset = 0xf3 ∷ 0x00 ∷ 0x38 ∷ 0x38 ∷ 0x00 ∷ 0x00 ∷ 0x00 ∷ 0x00 ∷ []

-- `struct State`
pub record State : Type 0 where
  pub reset : List ℕ
  pub nonce_id : ℕ
  pub ready : Bool
  pub ready_state : List ℕ
  pub signature : List (List ℕ)
  pub next_page : ℕ

-- The initial value of `STATE`.
unfoldable pub initial : State
initial = record {
  reset = default_reset;
  nonce_id = 0;
  ready = false;
  ready_state = replicate state_len 0;
  signature = replicate signature_pages (replicate signature_len 0);
  next_page = 0;
}

pub data Cmd : Type 0 where
  reset : Cmd
  nonce : Packet → Cmd

abbrev pub cmd_queue_len : ℕ
cmd_queue_len = 8

module _ (ch : Channels) where
  open ch use {Queue, try_send}

  -- The two statics that the console side works on: `STATE` and `CMD`.
  pub record Shared : Type 0 where
    pub state : State
    pub cmds : Queue Cmd cmd_queue_len

  -- A full queue drops the command.
  unfoldable pub send : Cmd → Queue Cmd cmd_queue_len → Queue Cmd cmd_queue_len
  send cmd q = Option.get_or (try_send cmd q) q

  -- What a GET_REPORT leaves: the length answered (`none`: rejected), the buffer, the statics.
  pub record Reply : Type 0 where
    pub answer : Option ℕ
    pub buf : List ℕ
    pub shared : Shared

  get_reset : List ℕ → Shared → Reply
  unfolding send
  get_reset buf c = record {
    answer = some reset_len;
    buf = copy_at buf 0 c.state.reset;
    shared = record {
      state = record c.state { ready = false; next_page = 0 };
      cmds = send reset c.cmds;
    };
  }

  get_state : List ℕ → Shared → Reply
  get_state buf c = record {
    answer = some state_len;
    buf =
        if c.state.ready
        then copy_at buf 0 c.state.ready_state
        else set (set (set (copy_at buf 0 (replicate state_len 0)) 0 id_state) 1 c.state.nonce_id) 2
            state_signing;
    shared = c;
  }

  get_signature : List ℕ → Shared → Reply
  get_signature buf c =
      if not c.state.ready || leb signature_pages c.state.next_page
      then record { answer = none; buf = buf; shared = c }
      else record {
        answer = some signature_len;
        buf = copy_at buf 0 (get_or c.state.signature c.state.next_page []);
        shared = record c { state = record c.state { next_page = c.state.next_page + 1 } };
      }

  -- `get_report`: the `match id`.
  unfoldable pub get_report : ℕ → List ℕ → Shared → Reply
  unfolding get_reset get_state get_signature
  get_report id buf c =
      if id == id_reset
      then get_reset buf c
      else if id == id_state
      then get_state buf c
      else if id == id_signature
      then get_signature buf c
      else record { answer = none; buf = buf; shared = c }

  -- `set_report`; the result says whether it was an auth report.
  unfoldable pub set_report : ℕ → List ℕ → Shared → Bool × Shared
  unfolding send
  set_report id bytes c =
      if id == id_nonce
      then (
        true,
        record {
          state = record c.state { ready = false; next_page = 0; nonce_id = get_or bytes 1 0 };
          cmds = send (nonce (Packet.new bytes)) c.cmds;
        },
      )
      else (false, c)
