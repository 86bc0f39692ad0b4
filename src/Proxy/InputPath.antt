-- ===== src/Proxy/InputPath.antt =====
-- The wheel's input on its way to the console: `forward_input` of src/proxy.rs on core 1 and
-- `send_input` of src/device.rs on core 0, which share `INPUT`, in any order.
use mathlib.Core.List.{append_assoc, append-nil}
use mathlib.Core.Option.{some-injective}
use rp_wheel_bridge.Base.{
  true, false, Option, none, some, length, ℕ, ◌+◌, ◌^◌, ◌<◌, ◌≡◌, refl, sym, ap, ◌∙◌, subst, List,
  [], ◌∷◌, ◌++◌, map, Bool, if◌then◌else◌, Bool-cases, inl, inr, All, All-append, u32, arith,
}
use rp_wheel_bridge.Platform.Channel.{Channels}
use rp_wheel_bridge.Device.Profile.{wheel}
use rp_wheel_bridge.Device.Streams.{Sink, Write, packet, count}
use rp_wheel_bridge.Device.Link.{queue_len}
use rp_wheel_bridge.InputMap.{neutral}
use rp_wheel_bridge.Proxy.Input.{
  Transfer, Inputs, started, forward_input, forward_inputs, stopped, round, shown, IsRead, IsReport,
  forward_inputs_lem,
}

-- A turn: a transfer from the wheel ends; `send_input` takes `INPUT` for its next write; or that write,
-- which waits for the console, ends well or not.
pub data Turn : Type 0 where
  reads : Transfer → Turn
  samples : Turn
  ends : Bool → Turn

module _ (ch : Channels) where
  -- The statics with the report whose write waits, the writes that succeeded, and `STATS.input_sent`.
  pub record Display : Type 0 where
    pub inputs : Inputs ch
    pub in_flight : Option (List ℕ)
    pub writes : List Write
    pub input_sent : ℕ

  -- The end of a transfer; after the loop has ended there is none.
  unfoldable pub read_input : Transfer → Inputs ch → Inputs ch
  unfolding forward_input
  read_input t s = let next = forward_input ch wheel t s in if s.running then next else s

  -- `input()`, the argument of `ep.write`.
  unfoldable pub sample_input : Display → Display
  sample_input d = elim d.in_flight [
    | none ↦ record d { in_flight = some d.inputs.input }
    | some r ↦ d
  ]

  -- The end of `ep.write`; after a failure the report is given up.
  unfoldable pub end_input : Bool → Display → Display
  end_input success d = elim d.in_flight [
    | none ↦ d
    | some r ↦
        if success
        then record d {
          in_flight = none;
          writes = d.writes ++ packet r ∷ [];
          input_sent = count d.input_sent;
        }
        else record d { in_flight = none }
  ]

  unfoldable pub take_turn : Turn → Display → Display
  unfolding read_input sample_input end_input
  take_turn (reads t) d = record d { inputs = read_input t d.inputs }
  take_turn samples d = sample_input d
  take_turn (ends success) d = end_input success d

  unfoldable pub take_turns : List Turn → Display → Display
  unfolding take_turn
  take_turns [] d = d
  take_turns (t ∷ ts) d = take_turns ts (take_turn t d)

  -- The start: nothing was written yet.
  abbrev pub idle : Sink ch queue_len → Display
  idle upstream = record {
    inputs = started ch upstream;
    in_flight = none;
    writes = [];
    input_sent = 0;
  }

-- What the console is to get after the transfers `past`, with the report `waiting` about to be written:
-- for each write that succeeds, what the transfers before its report was taken show.
abbrev pub given : List Transfer → Option (List ℕ) → List Turn → List (List ℕ)
given past waiting [] = []
given past waiting (reads t ∷ ts) = given (past ++ t ∷ []) waiting ts
given past none (samples ∷ ts) = given past (some (shown neutral past)) ts
given past (some r) (samples ∷ ts) = given past (some r) ts
given past none (ends success ∷ ts) = given past none ts
given past (some r) (ends true ∷ ts) = r ∷ given past none ts
given past (some r) (ends false ∷ ts) = given past none ts

-- What is read is bytes.
abbrev pub IsReadTurn : Turn → Type 0
IsReadTurn (reads t) = IsRead t
IsReadTurn samples = Unit
IsReadTurn (ends success) = Unit

module _ {ch : Channels} where
  -- The loop over one more transfer is the loop, then one more round.
  forward_inputs-snoc :
      (past : List Transfer) (t : Transfer) (s : Inputs ch)
      → let s' = forward_inputs ch wheel past s in
        forward_inputs ch wheel (past ++ t ∷ []) s ≡ read_input ch t s'
  unfolding forward_inputs read_input
  forward_inputs-snoc [] t s = refl
  forward_inputs-snoc (p ∷ past) t s = elim (Bool-cases s.running) [
    | inl on ↦
        rw (round wheel p (past ++ t ∷ []) s on, round wheel p past s on)
          (forward_inputs-snoc past t (forward_input ch wheel p s))
    | inr off ↦
        rw (stopped wheel (p ∷ past ++ t ∷ []) s off, stopped wheel (p ∷ past) s off, off) refl
  ]

  -- After the transfers `past`, with `INPUT` as they leave it, and a report about to be written.
  abbrev HasRead : Sink ch queue_len → List Transfer → Display ch → Type 0
  HasRead upstream past d =
      All IsRead past
      × (d.inputs ≡ forward_inputs ch wheel past (started ch upstream))
      × ((r : List ℕ) → d.in_flight ≡ some r → IsReport r)

  reads-HasRead :
      (upstream : Sink ch queue_len) (past : List Transfer) (t : Transfer) (d : Display ch)
      → IsRead t
      → HasRead upstream past d
      → HasRead upstream (past ++ t ∷ []) (take_turn ch (reads t) d)
  unfolding take_turn
  reads-HasRead upstream past t d now (before, same, whole) = (
    All-append IsRead past (t ∷ []) before (now, record {}),
    ap (read_input ch t) same ∙ sym (forward_inputs-snoc past t (started ch upstream)),
    whole,
  )

  -- What was written from `d` on: the reports, each whole, and the count of them.
  abbrev pub HasShown : List (List ℕ) → Display ch → Display ch → Type 0
  HasShown reports d d' =
      (d'.writes ≡ d.writes ++ map packet reports)
      × All IsReport reports
      × (d'.input_sent ≡ u32 (d.input_sent + length reports))

  take_turns-HasShown :
      (upstream : Sink ch queue_len) (ts : List Turn) (past : List Transfer) (o : Option (List ℕ))
      (d : Display ch)
      → All IsReadTurn ts
      → d.input_sent < 2 ^ 32
      → HasRead upstream past (record d { in_flight = o })
      → HasShown (given past o ts) d (take_turns ch ts (record d { in_flight = o }))
  unfolding take_turns take_turn sample_input end_input
  take_turns-HasShown upstream [] past o d h few k =
      (sym (append-nil d.writes), record {}, omega arith)
  take_turns-HasShown upstream (reads t ∷ ts) past o d (now, h) few k =
      take_turns-HasShown upstream ts (past ++ t ∷ []) o (take_turn ch (reads t) d) h few
        (reads-HasRead upstream past t (record d { in_flight = o }) now k)
  take_turns-HasShown upstream (samples ∷ ts) past (some r) d (now, h) few k =
      take_turns-HasShown upstream ts past (some r) d h few k
  take_turns-HasShown upstream (samples ∷ ts) past none d (now, h) few (before, same, whole) =
      let (input, report, _) = forward_inputs_lem wheel past upstream refl before in
      let shows : d.inputs.input ≡ shown neutral past = ap (λ i. i.input) same ∙ input in
      subst
        (λ r.
          HasShown (given past (some r) ts) d
            (take_turns ch ts (record d { in_flight = some d.inputs.input })))
        shows
        (take_turns-HasShown upstream ts past (some d.inputs.input) d h few (
          before,
          same,
          λ r e. subst IsReport (ap (λ i. i.input) (sym same) ∙ some-injective _ _ e) report,
        ))
  take_turns-HasShown upstream (ends success ∷ ts) past none d (now, h) few k =
      take_turns-HasShown upstream ts past none d h few k
  take_turns-HasShown upstream (ends false ∷ ts) past (some r) d (now, h) few
        (before, same, whole) =
      take_turns-HasShown upstream ts past none d h few (before, same, λ r e. absurd cc)
  take_turns-HasShown upstream (ends true ∷ ts) past (some r) d (now, h) few (before, same, whole) =
      let reports = given past none ts in
      let next : Display ch = record d {
        writes = d.writes ++ packet r ∷ [];
        input_sent = count d.input_sent;
      } in
      let (wrote, all, counted) =
        take_turns-HasShown upstream ts past none next h (omega arith)
          (before, same, λ r e. absurd cc) in
      (
        wrote ∙ append_assoc d.writes (packet r ∷ []) (map packet reports),
        (whole r refl, all),
        omega (arith, counted),
      )

  -- However the wheel's transfers and the writes to the console take turns, in the wheel role, whatever
  -- the transfers give: each write that succeeds gives the console one packet of 64 bytes, the
  -- translation of the latest whole report read before the write was begun and before any detach, or
  -- the neutral report before the first one; and these writes are counted (modulo 2^32). A write that
  -- fails gives it nothing.
  pub input_to_console :
      (ts : List Turn) (upstream : Sink ch queue_len)
      → All IsReadTurn ts
      → HasShown (given [] none ts) (idle ch upstream) (take_turns ch ts (idle ch upstream))
  unfolding forward_inputs
  input_to_console ts upstream h =
      take_turns-HasShown upstream ts [] none (idle ch upstream) h (omega arith)
        (record {}, refl, λ r e. absurd cc)
