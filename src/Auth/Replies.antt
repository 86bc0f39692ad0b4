-- ===== src/Auth/Replies.antt =====
-- What the console reads from `get_report` of src/auth.rs, on every branch.
use rp_wheel_bridge.Base.{
  ℕ, zero, suc, ◌+◌, ◌≤◌, ◌<◌, ◌≡◌, refl, sym, ap, ap₂, ◌∙◌, ◌⊎◌, inl, inr, List, [], ◌∷◌, true,
  false, Option, none, some, if◌then◌else◌, length, get_or, set, take, drop, replicate, copy_at,
  get_or-All_lt, arith, length-copy_at, length-set, get_or-copy_at, take-copy_at, drop-cons,
  drop_all, get_or-set_self, get_or-set_ne,
}
use rp_wheel_bridge.Platform.Channel.{Channels}
use rp_wheel_bridge.Auth.State.{
  Shared, id_signature, id_state, id_reset, id_nonce, state_len, signature_len, signature_pages,
  state_signing, state_ready, get_report, set_report,
}
use rp_wheel_bridge.Auth.Console.{IsValid, Requests, none_yet, get, put}

abbrev pub page_of : Option ℕ → List ℕ → List ℕ
page_of none b = []
page_of (some k) b = take k b

-- Repeated GETs of F1: the pages that came, and the statics afterwards. A rejected GET gives an
-- empty page.
unfoldable pub read_pages : (ch : Channels) → ℕ → List ℕ → Shared ch → List (List ℕ) × Shared ch
read_pages ch zero buf c = ([], c)
read_pages ch (suc n) buf c =
    let r = get_report ch id_signature buf c in
    let (rest, c') = read_pages ch n buf r.shared in (page_of r.answer r.buf ∷ rest, c')

module _ (ch : Channels) where
  -- One GET of F1 while a signature is cached hands out the next page.
  get_signature_lem :
      (buf : List ℕ) (c : Shared ch)
      → c.state.ready ≡ true
      → c.state.next_page < signature_pages
      → get_report ch id_signature buf c ≡ record {
        answer = some signature_len;
        buf = copy_at buf 0 (get_or c.state.signature c.state.next_page []);
        shared = record c { state = record c.state { next_page = c.state.next_page + 1 } };
      }
  unfolding get_report
  get_signature_lem buf c r h = ground arith

  -- An F1 page as the console takes it from its buffer.
  page_lem :
      (buf page : List ℕ)
      → length page ≡ signature_len
      → signature_len ≤ length buf
      → take signature_len (copy_at buf 0 page) ≡ page
  page_lem buf page len fits =
      ap (λ k. take k (copy_at buf 0 page)) (sym len) ∙ take-copy_at buf page (omega arith)

  -- The statics after one page more has been handed out.
  abbrev next : Shared ch → Shared ch
  next c = record c { state = record c.state { next_page = c.state.next_page + 1 } }

  next-IsValid :
      (c : Shared ch)
      → IsValid c.state
      → c.state.next_page < signature_pages
      → IsValid (next c).state
  next-IsValid c v h = record {
    reset_length = v.reset_length;
    ready_length = v.ready_length;
    page_count = v.page_count;
    page_lengths = v.page_lengths;
    next_in_range = omega arith;
    ready_state_lem = v.ready_state_lem;
    pages = v.pages;
  }

  abbrev finished : Shared ch → Shared ch
  finished c = record c { state = record c.state { next_page = signature_pages } }

  finished_lem : (c : Shared ch) → c.state.next_page ≡ signature_pages → c ≡ finished c
  finished_lem c e = ap (λ k. record c { state = record c.state { next_page = k } }) e

  read_pages-drop :
      (n : ℕ) (buf : List ℕ) (c : Shared ch)
      → IsValid c.state
      → c.state.ready ≡ true
      → c.state.next_page + n ≡ signature_pages
      → signature_len ≤ length buf
      → ((read_pages ch n buf c).0 ≡ drop c.state.next_page c.state.signature)
        × ((read_pages ch n buf c).1 ≡ finished c)
  unfolding read_pages
  read_pages-drop zero buf c v r e fits = (
    sym (drop_all c.state.next_page c.state.signature (omega (arith, v.page_count))),
    finished_lem c (omega arith),
  )
  read_pages-drop (suc n) buf c v r e fits =
      let lt : c.state.next_page < signature_pages = omega arith in
      let page = get_or c.state.signature c.state.next_page [] in
      let len : length page ≡ signature_len =
        get_or-All_lt (λ p. length p ≡ signature_len) c.state.signature c.state.next_page []
          (omega (arith, v.page_count)) v.page_lengths in
      let next_lem : c.state.next_page + 1 ≡ suc c.state.next_page = omega arith in
      let rest = read_pages-drop n buf (next c) (next-IsValid c v lt) r (omega arith) fits in
      rw (get_signature_lem buf c r lt) (
        ap₂ ◌∷◌ (page_lem buf page len fits) (rest.0 ∙ ap (λ k. drop k c.state.signature) next_lem)
            ∙ sym (drop-cons [] c.state.signature c.state.next_page (omega (arith, v.page_count))),
        rest.1,
      )

  -- Once a signature is cached and no page of it has been handed out, nineteen GETs of F1 give the
  -- console its pages in order, each one whole, and the next GET is rejected.
  pub read_pages_lem :
      (buf : List ℕ) (c : Shared ch)
      → IsValid c.state
      → c.state.ready ≡ true
      → c.state.next_page ≡ 0
      → signature_len ≤ length buf
      → let (pages, after) = read_pages ch signature_pages buf c in
        (pages ≡ c.state.signature) × ((get_report ch id_signature buf after).answer ≡ none)
  unfolding get_report
  read_pages_lem buf c v r z fits =
      let all = read_pages-drop signature_pages buf c v r (omega arith) fits in
      (all.0 ∙ ap (λ k. drop k c.state.signature) z, rw all.1 (ground arith))

  -- The made-up F2 that says "signing".
  abbrev busy : List ℕ → ℕ → List ℕ
  busy buf nonce_id =
      set (set (set (copy_at buf 0 (replicate state_len 0)) 0 id_state) 1 nonce_id) 2 state_signing

  busy_lem :
      (buf : List ℕ) (nonce_id : ℕ)
      → state_len ≤ length buf
      → (get_or (busy buf nonce_id) 1 0 ≡ nonce_id)
        × (get_or (busy buf nonce_id) 2 0 ≡ state_signing)
  busy_lem buf nonce_id fits =
      let zeros = copy_at buf 0 (replicate state_len 0) in
      let len0 : length zeros ≡ length buf = length-copy_at buf 0 (replicate state_len 0) in
      let len1 : length (set zeros 0 id_state) ≡ length zeros = length-set zeros 0 id_state in
      let len2 : length (set (set zeros 0 id_state) 1 nonce_id) ≡ length (set zeros 0 id_state) =
        length-set (set zeros 0 id_state) 1 nonce_id in
      (
        get_or-set_ne (set (set zeros 0 id_state) 1 nonce_id) 2 1 state_signing 0 (omega arith)
            ∙ get_or-set_self (set zeros 0 id_state) 1 nonce_id 0 (omega arith),
        get_or-set_self (set (set zeros 0 id_state) 1 nonce_id) 2 state_signing 0 (omega arith),
      )

  -- A GET of F2 is always answered, with 16 bytes: byte 1 is the id of the console's nonce, and
  -- byte 2 says "ready" when a signature is cached and "signing" when none is.
  pub get_report-state :
      (buf : List ℕ) (c : Shared ch)
      → IsValid c.state
      → state_len ≤ length buf
      → let r = get_report ch id_state buf c in
        (r.answer ≡ some state_len)
        × (get_or r.buf 1 0 ≡ c.state.nonce_id)
        × (get_or r.buf 2 0 ≡ (if c.state.ready then state_ready else state_signing))
        × (r.shared ≡ c)
  unfolding get_report
  get_report-state buf c v fits = ground (
    arith,
    busy_lem buf c.state.nonce_id,
    v.ready_state_lem,
    get_or-copy_at buf c.state.ready_state 1 0,
    get_or-copy_at buf c.state.ready_state 2 0,
  )

  -- The reply is written into the buffer.
  pub length-get_report-state :
      (buf : List ℕ) (c : Shared ch) → length (get_report ch id_state buf c).buf ≡ length buf
  unfolding get_report
  length-get_report-state buf c =
      let zeros = copy_at buf 0 (replicate state_len 0) in
      ground (
        arith,
        length-copy_at buf 0 c.state.ready_state,
        length-copy_at buf 0 (replicate state_len 0),
        length-set zeros 0 id_state,
        length-set (set zeros 0 id_state) 1 c.state.nonce_id,
        length-set (set (set zeros 0 id_state) 1 c.state.nonce_id) 2 state_signing,
      )

  get_report-ready :
      (id : ℕ) (buf : List ℕ) (c : Shared ch)
      → c.state.ready ≡ false
      → (get_report ch id buf c).shared.state.ready ≡ false
  unfolding get_report
  get_report-ready id buf c h = ground arith

  set_report-ready :
      (id : ℕ) (bytes : List ℕ) (c : Shared ch)
      → c.state.ready ≡ false
      → (set_report ch id bytes c).1.state.ready ≡ false
  unfolding set_report
  set_report-ready id bytes c h = ground arith

  Requests-ready :
      {c d : Shared ch} → Requests ch c d → c.state.ready ≡ false → d.state.ready ≡ false
  Requests-ready none_yet h = h
  Requests-ready (get {d} r id buf) h = get_report-ready id buf d (Requests-ready r h)
  Requests-ready (put {d} r id bytes) h = set_report-ready id bytes d (Requests-ready r h)

  -- Requests of the console alone never make a signature available: while none is cached every GET
  -- of F1 is rejected and leaves the statics as they are, whatever was requested before.
  pub unsigned-rejected :
      {c d : Shared ch} (buf : List ℕ)
      → Requests ch c d
      → c.state.ready ≡ false
      → ((get_report ch id_signature buf d).answer ≡ none)
        × ((get_report ch id_signature buf d).shared ≡ d)
  unfolding get_report
  unsigned-rejected {d} buf r h = ground (arith, Requests-ready r h)

  reset_unready :
      (c : Shared ch) (buf : List ℕ) → (get_report ch id_reset buf c).shared.state.ready ≡ false
  unfolding get_report
  reset_unready c buf = refl

  nonce_unready :
      (c : Shared ch) (bytes : List ℕ) → (set_report ch id_nonce bytes c).1.state.ready ≡ false
  unfolding set_report
  nonce_unready c bytes = refl

  -- A reset (GET F3) or a nonce page (SET F0) withdraws the cached signature: whatever the console
  -- requests after it, F1 is rejected until a new signature is cached.
  pub restart-withdraws :
      {d : Shared ch} (c : Shared ch) (buf bytes : List ℕ)
      → Requests ch (get_report ch id_reset buf c).shared d
        ⊎ Requests ch (set_report ch id_nonce bytes c).1 d
      → (get_report ch id_signature buf d).answer ≡ none
  restart-withdraws c buf bytes (inl r) = (unsigned-rejected buf r (reset_unready c buf)).0
  restart-withdraws c buf bytes (inr r) = (unsigned-rejected buf r (nonce_unready c bytes)).0
