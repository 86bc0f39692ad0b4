-- ===== src/Proxy/Sent.antt =====
-- The requests that the EP0 task of src/proxy.rs sends, of a kind, and the statics it leaves alone.
use rp_wheel_bridge.Base.{ℕ, ◌≡◌, refl, sym, ap, ◌∙◌, List, [], ◌∷◌, ◌++◌, All, All-append}
use mathlib.Core.List.{append_assoc}
use rp_wheel_bridge.Platform.Usb.{Setup}
use rp_wheel_bridge.Proxy.Wheel.{Wheel, Out}

module _ (wheel : Wheel) (P : Out → Type 0) where
  open wheel use {World, control_out, mine, outs}

  -- From `w` to `w'` only requests with `P` were sent, and neither `wheel_link` nor `WAKING` was
  -- touched.
  pub record Sends (w w' : World) : Type 0 where
    pub new : List Out
    pub outs_lem : outs w' ≡ new ++ outs w
    pub all : All P new
    pub links : (mine w').links ≡ (mine w).links
    pub waking : (mine w').waking ≡ (mine w).waking

  pub Sends-refl : (w : World) → Sends w w
  Sends-refl w = record { new = []; outs_lem = refl; all = record {}; links = refl; waking = refl }

  pub Sends-same :
      (w w' : World)
      → outs w' ≡ outs w
      → (mine w').links ≡ (mine w).links
      → (mine w').waking ≡ (mine w).waking
      → Sends w w'
  Sends-same w w' e l k = record { new = []; outs_lem = e; all = record {}; links = l; waking = k }

  pub Sends-out :
      (s : Setup) (buf : List ℕ) (w : World) → P (s, buf) → Sends w (control_out s buf w).1
  Sends-out s buf w p = record {
    new = (s, buf) ∷ [];
    outs_lem = wheel.outs-out s buf w;
    all = (p, record {});
    links = ap (λ m. m.links) (wheel.mine-out s buf w);
    waking = ap (λ m. m.waking) (wheel.mine-out s buf w);
  }

  pub Sends-trans : {u v w : World} → Sends u v → Sends v w → Sends u w
  Sends-trans {u} {v} {w} f g = record {
    new = g.new ++ f.new;
    outs_lem =
        g.outs_lem ∙ ap (λ l. g.new ++ l) f.outs_lem ∙ sym (append_assoc g.new f.new (outs u));
    all = All-append P g.new f.new g.all f.all;
    links = g.links ∙ f.links;
    waking = g.waking ∙ f.waking;
  }
