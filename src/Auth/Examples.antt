-- ===== src/Auth/Examples.antt =====
-- Witnesses and tests of the authentication relay (src/auth.rs), with a signer that answers.
use rp_wheel_bridge.Base.{
  ℕ, ◌+◌, ◌%◌, ◌≤◌, ◌<◌, ◌≡◌, ◌≢◌, refl, List, [], ◌∷◌, true, false, not, ◌||◌, none, ◌==◌,
  if◌then◌else◌, ok, err, length, get_or, set, replicate, AllBytes, IsByte, All-set, length-set,
  arith, inr,
}
use native.Mathlib.Nat.{le_refl, le-add_right}
use rp_wheel_bridge.Platform.Channel.{fifo}
use rp_wheel_bridge.Platform.Usb.{Host, Received, Setup, stall, class_interface_in}
use rp_wheel_bridge.Device.Packet
use rp_wheel_bridge.Auth.State.{
  Shared, nonce, initial, id_nonce, id_signature, signature_pages, get_report, set_report,
}
use rp_wheel_bridge.Auth.Console.{IsValid, IsPage, initial-IsValid, Requests, none_yet, put}
use rp_wheel_bridge.Auth.Replies.{read_pages, read_pages_lem, restart-withdraws}
use rp_wheel_bridge.Auth.Signer.{
  Signing, Fetch, page_lost, get_feature, poll, fetch_pages, cache, after_poll, fetch_signature,
  publish, set_nonce,
}
use rp_wheel_bridge.Auth.Handle.{handle, handle_nonce, no_nonces, sign}
use rp_wheel_bridge.Auth.Poll.{fetch_signature_ends}
use rp_wheel_bridge.Auth.Publish.{fetch_signature_failed, fetch_signature_served}
use rp_wheel_bridge.Auth.Nonce.{IsNoncePage, handle_nonce-last, handle_pages, handle_pages_lem}
use rp_wheel_bridge.Auth.Safety.{fetch_signature-IsSafe, handle-IsValid}

-- A signer that is ready at once and hands out its pages in order; a transfer takes 1 ms.
record Demo : Type 0 where
  clock : ℕ
  statics : Shared fifo
  page : ℕ

-- The byte 2 that the signer puts into a report: the page number in F1, and else 0.
abbrev byte_two : ℕ → ℕ → ℕ
byte_two value page = if value == 0x3f1 then page % 256 else 0

abbrev answer : Setup → List ℕ → Demo → Received Demo
answer (class_interface_in request value index len) buf w = record {
  result = ok len;
  buf = set buf 2 (byte_two value w.page);
  world = record w { clock = w.clock + 1; page = if value == 0x3f1 then w.page + 1 else w.page };
}
answer _ buf w = record { result = err stall; buf = buf; world = w }

answer_time : (s : Setup) (buf : List ℕ) (w : Demo) → w.clock ≤ (answer s buf w).world.clock
answer_time (class_interface_in request value index len) buf w = omega arith
answer_time _ buf w = omega arith

answer_length : (s : Setup) (buf : List ℕ) (w : Demo) → length (answer s buf w).buf ≡ length buf
answer_length (class_interface_in request value index len) buf w =
    length-set buf 2 (byte_two value w.page)
answer_length _ buf w = refl

answer_bytes : (s : Setup) (buf : List ℕ) (w : Demo) → AllBytes buf → AllBytes (answer s buf w).buf
answer_bytes (class_interface_in request value index len) buf w h =
    All-set IsByte buf 2 (byte_two value w.page) (ground arith) h
answer_bytes _ buf w h = h

answer_statics : (s : Setup) (buf : List ℕ) (w : Demo) → (answer s buf w).world.statics ≡ w.statics
answer_statics (class_interface_in request value index len) buf w = refl
answer_statics _ buf w = refl

answer-Requests :
    (s : Setup) (buf : List ℕ) (w : Demo) → Requests fifo w.statics (answer s buf w).world.statics
answer-Requests s buf w = rw answer_statics none_yet

abbrev demo_host : Host
demo_host = record {
  World = Demo;
  now = λ w. w.clock;
  control_in = answer;
  control_out = λ s buf w. (ok tt, record w { clock = w.clock + 1 });
  after = λ d w. record w { clock = w.clock + d };
  in_time = answer_time;
  out_time = λ s buf w. le-add_right w.clock 1;
  after_time = λ d w. le_refl (w.clock + d);
  in_length = answer_length;
  in_bytes = answer_bytes;
}

abbrev demo : Signing fifo
demo = record {
  host = demo_host;
  shared = λ w. w.statics;
  store = λ c w. record w { statics = c };
  shared-store = λ c w. refl;
  in_requests = answer-Requests;
  out_requests = λ s buf w. none_yet;
  after_requests = λ d w. none_yet;
}

abbrev start : Demo
start = record { clock = 0; statics = record { state = initial; cmds = [] }; page = 0 }

abbrev nonce_page : ℕ → List ℕ
nonce_page n = id_nonce ∷ 7 ∷ n ∷ replicate 61 0

abbrev reply_buf : List ℕ
reply_buf = replicate 64 0

nonce_page-IsNoncePage : (n : ℕ) → IsNoncePage n (nonce_page n)
nonce_page-IsNoncePage n = record { whole = refl; numbered = refl }

signed : (fetch_signature demo 0 501 start).0 ≡ Fetch.done
unfolding fetch_signature poll get_feature after_poll fetch_pages cache
signed = refl

-- The statics once the signature has been fetched.
abbrev served : Demo
served = (fetch_signature demo 0 501 start).1

served_ready : (served.statics.state.ready ≡ true) × (served.statics.state.next_page ≡ 0)
unfolding fetch_signature poll get_feature after_poll fetch_pages cache publish
served_ready = (refl, refl)

served-IsValid : IsValid served.statics.state
served-IsValid = fetch_signature-IsSafe demo 0 501 start initial-IsValid

read_pages_lem_example :
    ((read_pages fifo signature_pages reply_buf served.statics).0 ≡ served.statics.state.signature)
    × ((get_report fifo id_signature reply_buf
          (read_pages fifo signature_pages reply_buf served.statics).1).answer
        ≡ none)
read_pages_lem_example =
    read_pages_lem fifo reply_buf served.statics served-IsValid served_ready.0 served_ready.1
      (omega arith)

restart-withdraws_example :
    (get_report fifo id_signature reply_buf
      (set_report fifo id_nonce
        (nonce_page 1)
        (set_report fifo id_nonce (nonce_page 0) served.statics).1).1).answer
    ≡ none
restart-withdraws_example =
    restart-withdraws fifo served.statics reply_buf (nonce_page 0)
      (inr (put none_yet id_nonce (nonce_page 1)))

fetch_signature_ends_example : (fetch_signature demo 0 501 start).0 ≢ Fetch.out_of_fuel
fetch_signature_ends_example = fetch_signature_ends demo 0 501 start (omega arith)

-- A signer whose pages begin at number 1: the first page is not the one asked for.
abbrev off_by_one : Demo
off_by_one = record start { page = 1 }

lost : (fetch_signature demo 0 501 off_by_one).0 ≡ page_lost
unfolding fetch_signature poll get_feature after_poll fetch_pages cache
lost = refl

fetch_signature_failed_example :
    Requests fifo off_by_one.statics (fetch_signature demo 0 501 off_by_one).1.statics
fetch_signature_failed_example = fetch_signature_failed demo 0 501 off_by_one (rw lost (λ e. cc))

fetch_signature_served_example :
    let c = (fetch_signature demo 0 501 start).1.statics in
    let pages = (read_pages fifo signature_pages reply_buf c).0 in
    (length pages ≡ signature_pages)
    × ((i : ℕ) → i < signature_pages → IsPage c.state.nonce_id i (get_or pages i []))
fetch_signature_served_example =
    fetch_signature_served demo 0 501 start reply_buf initial-IsValid (omega arith) signed

handle_nonce-last_example :
    let (taken, w') = set_nonce demo 0 (nonce_page 4) start in
    handle_nonce demo 0 501 (nonce_page 4) no_nonces start ≡ (
      record { pages = set no_nonces.pages 4 (nonce_page 4); refused = false },
      sign demo 0 501 (false || not taken) (set no_nonces.pages 4 (nonce_page 4)) w',
    )
handle_nonce-last_example =
    handle_nonce-last demo 0 501 (nonce_page 4) no_nonces start (nonce_page-IsNoncePage 4)

handle_pages_lem_example :
    (handle_pages demo 0 501
      (nonce_page 0 ∷ nonce_page 1 ∷ nonce_page 2 ∷ nonce_page 3 ∷ nonce_page 4 ∷ [])
      no_nonces
      start).0
    ≡ record {
      pages = nonce_page 0 ∷ nonce_page 1 ∷ nonce_page 2 ∷ nonce_page 3 ∷ nonce_page 4 ∷ [];
      refused = false;
    }
handle_pages_lem_example =
    handle_pages_lem demo 0 501 (nonce_page 0) (nonce_page 1) (nonce_page 2) (nonce_page 3)
      (nonce_page 4) no_nonces start refl (nonce_page-IsNoncePage 0) (nonce_page-IsNoncePage 1)
      (nonce_page-IsNoncePage 2) (nonce_page-IsNoncePage 3) (nonce_page-IsNoncePage 4)

handle-IsValid_example :
    IsValid (handle demo 0 501 (nonce (Packet.new (nonce_page 4))) no_nonces start).1.statics.state
handle-IsValid_example =
    handle-IsValid demo 0 501 (nonce (Packet.new (nonce_page 4))) no_nonces start initial-IsValid
