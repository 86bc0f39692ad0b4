-- ===== src/Auth/Publish.antt =====
-- What `fetch_signature` of src/auth.rs leaves in the statics, whatever the console requests while
-- the signer is polled and read.
use rp_wheel_bridge.Base.{
  ℕ, zero, suc, ◌+◌, ◌-◌, ◌≤◌, ◌<◌, ◌≡◌, ◌≢◌, refl, ap, ◌∙◌, List, [], ◌∷◌, map, Bool, true, false,
  Option, none, some, leb, length, get_or, set, replicate, All, arith, length-set, length-map,
  get_or-set_ne, get_or-set_self, get_or-map, All-map, get_or-All_lt, if_intro,
}
use mathlib.Core.Option
use rp_wheel_bridge.Platform.Channel.{Channels}
use rp_wheel_bridge.Auth.State.{
  State, id_state, id_signature, state_len, signature_len, signature_pages, state_ready,
}
use rp_wheel_bridge.Auth.Console.{
  IsValid, IsPage, Requests, none_yet, Requests-trans, Requests-IsValid,
}
use rp_wheel_bridge.Auth.Replies.{read_pages, read_pages_lem}
use rp_wheel_bridge.Auth.Signer.{
  Signing, Polled, timed_out, is_ready, Fetch, page_lost, not_ready, poll, get_feature, after_poll,
  cache, fetch_signature, fetch_pages, publish, saw, signer_poll, signer_timeout, zero_page,
}

-- The pages of a complete signature: 64 bytes each, numbered from `i` on.
pub record IsSignature (i left : ℕ) (pages : List (List ℕ)) : Type 0 where
  pub count : length pages ≡ left
  pub lengths : All (λ p. length p ≡ signature_len) pages
  pub numbers : (j : ℕ) → j < left → get_or (get_or pages j []) 2 0 ≡ i + j

-- Publishing a complete signature keeps the invariant, whatever nonce id the console has sent.
publish-IsValid :
    (state : List ℕ) (pages : List (List ℕ)) (s : State)
    → IsValid s
    → length state ≡ state_len
    → get_or state 2 0 ≡ state_ready
    → IsSignature 0 signature_pages pages
    → IsValid (publish state pages s)
unfolding publish
publish-IsValid state pages s v len rdy sig = record {
  reset_length = v.reset_length;
  ready_length = length-set state 1 s.nonce_id ∙ len;
  page_count = length-map id_set pages ∙ sig.count;
  page_lengths =
      All-map (λ p. length p ≡ signature_len) id_set (λ p h. length-set p 1 s.nonce_id ∙ h) pages
        sig.lengths;
  next_in_range = omega arith;
  ready_state_lem = λ _. (
    get_or-set_self state 1 s.nonce_id 0 (omega arith),
    get_or-set_ne state 1 2 s.nonce_id 0 (omega arith) ∙ rdy,
  );
  pages = λ _ i lt. numbered i lt;
}
  where
    id_set : List ℕ → List ℕ
    id_set p = set p 1 s.nonce_id

    numbered : (i : ℕ) → i < signature_pages → IsPage s.nonce_id i (get_or (map id_set pages) i [])
    numbered i lt =
        let page = get_or pages i [] in
        let plen : length page ≡ signature_len =
          get_or-All_lt (λ p. length p ≡ signature_len) pages i [] (omega (arith, sig.count))
            sig.lengths in
        rw (get_or-map id_set pages i [] [] (omega (arith, sig.count))) (
          get_or-set_self page 1 s.nonce_id 0 (omega arith),
          get_or-set_ne page 1 2 s.nonce_id 0 (omega arith) ∙ (sig.numbers i lt ∙ add_lem),
        )
      where
        add_lem : 0 + i ≡ i
        add_lem = omega arith

module _ {ch : Channels} (env : Signing ch) (iface : ℕ) where
  open env use {
    World, after, now, shared, store, shared-store, in_requests, after_requests, in_length,
  }

  pub get_feature-Requests :
      (id : ℕ) (buf : List ℕ) (w : World)
      → Requests ch (shared w) (shared (get_feature env iface id buf w).world)
  unfolding get_feature
  get_feature-Requests id buf w = in_requests _ buf w

  pub length-get_feature :
      (id : ℕ) (buf : List ℕ) (w : World) → length (get_feature env iface id buf w).buf ≡ length buf
  unfolding get_feature
  length-get_feature id buf w = in_length _ buf w

  -- The polling only lets the console's requests happen, and the F2 that it believes says "ready".
  abbrev IsPolled : ℕ → World → Polled × World → Type 0
  IsPolled len w (p, w') =
      Requests ch (shared w) (shared w')
      × ((state' : List ℕ)
          → p ≡ is_ready state'
          → (length state' ≡ len) × (get_or state' 2 0 ≡ state_ready))

  IsPolled-ready :
      (state : List ℕ) (w : World)
      → let r = get_feature env iface id_state state w in
        get_or r.buf 2 0 ≡ state_ready → IsPolled (length state) w (is_ready r.buf, r.world)
  IsPolled-ready state w e = (
    get_feature-Requests id_state state w,
    λ s same.
        let eq : (get_feature env iface id_state state w).buf ≡ s = ground arith in
        (rw (← eq) (length-get_feature id_state state w), rw (← eq) e),
  )

  poll-IsPolled :
      (fuel start : ℕ) (state : List ℕ) (seen : Bool) (w : World)
      → IsPolled (length state) w (poll env iface fuel start state seen w)
  unfolding poll
  poll-IsPolled zero start state seen w = (none_yet, λ s e. cc)
  poll-IsPolled (suc fuel) start state seen w =
      let r = get_feature env iface id_state state w in
      let w' = after signer_poll r.world in
      let ih = poll-IsPolled fuel start r.buf (saw seen r) w' in
      let waited =
        Requests-trans ch (get_feature-Requests id_state state w)
          (after_requests signer_poll r.world) in
      if_intro (IsPolled (length state) w) (leb signer_timeout (now w - start)) _ _
        (λ _. (none_yet, λ s e. cc))
        λ _.
          if_intro (IsPolled (length state) w) _ _ _ (λ stop. IsPolled-ready state w (ground arith))
            λ _. (
              Requests-trans ch waited ih.0,
              λ s e. rw (← length-get_feature id_state state w) (ih.1 s e),
            )

  -- Reading the pages only lets requests happen, and pages that it keeps are a whole signature.
  abbrev AreFetched : ℕ → ℕ → World → Option (List (List ℕ)) × World → Type 0
  AreFetched i left w (m, w') =
      Requests ch (shared w) (shared w')
      × ((pages : List (List ℕ)) → m ≡ some pages → IsSignature i left pages)

  IsSignature-cons :
      (i left : ℕ) (page : List ℕ) (pages : List (List ℕ))
      → length page ≡ signature_len
      → get_or page 2 0 ≡ i
      → IsSignature (i + 1) left pages
      → IsSignature i (suc left) (page ∷ pages)
  IsSignature-cons i left page pages len number rest = record {
    count = ap suc rest.count;
    lengths = (len, rest.lengths);
    numbers = numbers;
  }
    where
      numbers : (j : ℕ) → j < suc left → get_or (get_or (page ∷ pages) j []) 2 0 ≡ i + j
      numbers zero lt = omega (arith, number)
      numbers (suc j) lt = omega (arith, rest.numbers j (omega arith))

  map-some :
      (page : List ℕ) (rest : Option (List (List ℕ))) (pages : List (List ℕ))
      → Option.map (λ ps. page ∷ ps) rest ≡ some pages
      → (ps : List (List ℕ)) × (rest ≡ some ps) × (pages ≡ page ∷ ps)
  map-some page none pages e = cc
  map-some page (some ps) pages e = (ps, refl, ground arith)

  fetch_pages-AreFetched :
      (left i : ℕ) (w : World) → AreFetched i left w (fetch_pages env iface left i w)
  unfolding fetch_pages
  fetch_pages-AreFetched zero i w = (
    none_yet,
    λ pages e.
        rw (← none_left pages e)
          (record { count = refl; lengths = tt; numbers = λ j lt. absurd (omega arith) }),
  )
    where
      none_left : (pages : List (List ℕ)) → some [] ≡ some pages → [] ≡ pages
      none_left pages e = ground arith
  fetch_pages-AreFetched (suc left) i w =
      let r = get_feature env iface id_signature zero_page w in
      let ih = fetch_pages-AreFetched left (i + 1) r.world in
      let went = get_feature-Requests id_signature zero_page w in
      if_intro (AreFetched i (suc left) w) _ _ _
        (λ right. (
          Requests-trans ch went ih.0,
          λ pages e.
              let (ps, eq, whole) =
                map-some r.buf (fetch_pages env iface left (i + 1) r.world).0 pages e in
              rw whole (
                IsSignature-cons i left r.buf ps (length-get_feature id_signature zero_page w)
                  (ground arith) (ih.1 ps eq)),
        ))
        (λ _. (went, λ pages e. cc))

  -- What a run of `fetch_signature` that began at `w` has done to the statics.
  abbrev pub IsOutcome : World → Fetch × World → Type 0
  IsOutcome w (Fetch.done, w') =
      ((shared w').state.ready ≡ true)
      × ((shared w').state.next_page ≡ 0)
      × (IsValid (shared w).state → IsValid (shared w').state)
  IsOutcome w (_, w') = Requests ch (shared w) (shared w')

  cache-IsOutcome :
      (state : List ℕ) (w v : World) (m : Option (List (List ℕ)) × World)
      → Requests ch (shared w) (shared v)
      → length state ≡ state_len
      → get_or state 2 0 ≡ state_ready
      → AreFetched 0 signature_pages v m
      → IsOutcome w (cache env iface state m)
  unfolding cache
  cache-IsOutcome state w v (none, w') r len rdy got = Requests-trans ch r got.0
  cache-IsOutcome state w v (some pages, w') r len rdy got =
      rw (shared-store (record (shared w') { state = publish state pages (shared w').state }) w') (
        unfold publish in refl,
        unfold publish in refl,
        λ valid.
            publish-IsValid state pages (shared w').state
              (Requests-IsValid ch (Requests-trans ch r got.0) valid) len rdy (got.1 pages refl),
      )

  after_poll-IsOutcome :
      (w : World) (m : Polled × World)
      → IsPolled state_len w m
      → IsOutcome w (after_poll env iface m)
  unfolding after_poll
  after_poll-IsOutcome w (timed_out, v) h = h.0
  after_poll-IsOutcome w (Polled.out_of_fuel, v) h = h.0
  after_poll-IsOutcome w (is_ready state, v) h =
      let (len, rdy) = h.1 state refl in
      cache-IsOutcome state w v (fetch_pages env iface signature_pages 0 v) h.0 len rdy
        (fetch_pages-AreFetched signature_pages 0 v)

  pub fetch_signature-IsOutcome :
      (fuel : ℕ) (w : World) → IsOutcome w (fetch_signature env iface fuel w)
  unfolding fetch_signature
  fetch_signature-IsOutcome fuel w =
      after_poll-IsOutcome w (poll env iface fuel (now w) (replicate state_len 0) false w)
        (poll-IsPolled fuel (now w) (replicate state_len 0) false w)

  -- A run of `fetch_signature` that is not "done" has published nothing: the statics changed by
  -- requests of the console alone, so an unsigned console stays unsigned.
  pub fetch_signature_failed :
      (fuel : ℕ) (w : World)
      → (fetch_signature env iface fuel w).0 ≢ Fetch.done
      → Requests ch (shared w) (shared (fetch_signature env iface fuel w).1)
  fetch_signature_failed fuel w h =
      failed (fetch_signature env iface fuel w) (fetch_signature-IsOutcome fuel w) h
    where
      failed :
          (m : Fetch × World)
          → IsOutcome w m
          → m.0 ≢ Fetch.done
          → Requests ch (shared w) (shared m.1)
      failed (Fetch.done, w') o h = absurd (h refl)
      failed (page_lost, w') o h = o
      failed (not_ready, w') o h = o
      failed (Fetch.out_of_fuel, w') o h = o

  -- After a run of `fetch_signature` that is "done", nineteen GETs of F1 by the console give nineteen
  -- pages of which page `i` carries number `i` and the id of the console's nonce, however the
  -- console's requests and the signer's transfers were interleaved before.
  pub fetch_signature_served :
      (fuel : ℕ) (w : World) (buf : List ℕ)
      → IsValid (shared w).state
      → signature_len ≤ length buf
      → (fetch_signature env iface fuel w).0 ≡ Fetch.done
      → let c = shared (fetch_signature env iface fuel w).1 in
        let pages = (read_pages ch signature_pages buf c).0 in
        (length pages ≡ signature_pages)
        × ((i : ℕ) → i < signature_pages → IsPage c.state.nonce_id i (get_or pages i []))
  fetch_signature_served fuel w buf valid fits e =
      served (fetch_signature env iface fuel w) (fetch_signature-IsOutcome fuel w) e
    where
      served :
          (m : Fetch × World)
          → IsOutcome w m
          → m.0 ≡ Fetch.done
          → let c = shared m.1 in
            let pages = (read_pages ch signature_pages buf c).0 in
            (length pages ≡ signature_pages)
            × ((i : ℕ) → i < signature_pages → IsPage c.state.nonce_id i (get_or pages i []))
      served (Fetch.done, w') o e' =
          let v = o.2 valid in
          rw (read_pages_lem ch buf (shared w') v o.0 o.1 fits).0 (v.page_count, v.pages o.0)
      served (page_lost, w') o e' = cc
      served (not_ready, w') o e' = cc
      served (Fetch.out_of_fuel, w') o e' = cc
