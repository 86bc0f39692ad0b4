-- ===== src/Proxy/Written.antt =====
-- What a loop of src/proxy.rs or src/relay.rs makes of an OUT pipe: one transfer after another.
use mathlib.Core.List.{reverse, reverse-append}
use rp_wheel_bridge.Base.{ℕ, ◌≡◌, refl, sym, ap, ◌∙◌, subst, List, [], ◌∷◌, ◌++◌, Bool, true, false}
use rp_wheel_bridge.Device.Packet.{Packet}
use rp_wheel_bridge.Device.Queued.{Fate, delivered, lost, cleared, cleared_in, all_cleared}
use rp_wheel_bridge.Proxy.Ffb.{Stream}

-- The transfers for packets that have left the queue, with what became of them: a packet that was
-- cleared has none, and one whose transfer fails is lost.
abbrev pub tries_of : (Packet → List ℕ) → List (Fate × Packet) → List (List ℕ × Bool)
tries_of report [] = []
tries_of report ((delivered, p) ∷ ps) = (report p, true) ∷ tries_of report ps
tries_of report ((lost, p) ∷ ps) = (report p, false) ∷ tries_of report ps
tries_of report ((cleared, p) ∷ ps) = tries_of report ps

abbrev pub fate_of : Bool → Fate
fate_of true = delivered
fate_of false = lost

pub tries_of-append :
    (report : Packet → List ℕ) (ps qs : List (Fate × Packet))
    → tries_of report (ps ++ qs) ≡ tries_of report ps ++ tries_of report qs
tries_of-append report [] qs = refl
tries_of-append report ((delivered, p) ∷ ps) qs =
    ap (λ l. (report p, true) ∷ l) (tries_of-append report ps qs)
tries_of-append report ((lost, p) ∷ ps) qs =
    ap (λ l. (report p, false) ∷ l) (tries_of-append report ps qs)
tries_of-append report ((cleared, p) ∷ ps) qs = tries_of-append report ps qs

tries_of-one :
    (report : Packet → List ℕ) (taken : Bool) (p : Packet)
    → tries_of report ((fate_of taken, p) ∷ []) ≡ (report p, taken) ∷ []
tries_of-one report true p = refl
tries_of-one report false p = refl

pub tries_of-cleared :
    (report : Packet → List ℕ) (ps : List Packet) → tries_of report (all_cleared ps) ≡ []
tries_of-cleared report [] = refl
tries_of-cleared report (p ∷ ps) = tries_of-cleared report ps

pub cleared_in-one : (taken : Bool) (p : Packet) → cleared_in ((fate_of taken, p) ∷ []) ≡ 0
cleared_in-one true p = refl
cleared_in-one false p = refl

module _ (stream : Stream) where
  open stream use {World, transfers}

  -- From `w` to `w'` these transfers were made, in order, each with its outcome.
  abbrev pub HasTried : List (List ℕ × Bool) → World → World → Type 0
  HasTried tries w w' = transfers w' ≡ reverse tries ++ transfers w

  HasTried-snoc :
      (ts : List (List ℕ × Bool)) (t : List ℕ × Bool) (v w x : World)
      → HasTried ts v w
      → transfers x ≡ t ∷ transfers w
      → HasTried (ts ++ t ∷ []) v x
  HasTried-snoc ts t v w x before last =
      last ∙ ap (λ l. t ∷ l) before ∙ ap (λ l. l ++ transfers v) (sym (reverse-append ts (t ∷ [])))

  -- One more transfer, for the packet `p`.
  pub HasTried-packet :
      (report : Packet → List ℕ) (gone : List (Fate × Packet)) (taken : Bool) (p : Packet)
      (v w x : World)
      → HasTried (tries_of report gone) v w
      → transfers x ≡ (report p, taken) ∷ transfers w
      → HasTried (tries_of report (gone ++ (fate_of taken, p) ∷ [])) v x
  HasTried-packet report gone taken p v w x before last =
      subst (λ l. HasTried l v x)
        (ap (λ l. tries_of report gone ++ l) (sym (tries_of-one report taken p))
          ∙ sym (tries_of-append report gone ((fate_of taken, p) ∷ [])))
        (HasTried-snoc (tries_of report gone) (report p, taken) v w x before last)
