-- ===== src/Events/Stream/Listen.antt =====
-- What a listener is sent.
use labfunctions.Prelude.{
  ℕ, zero, suc, ◌≡◌, refl, sym, ap, ◌∙◌, ◌<◌, ◌+◌, Bool, true, false, not, ◌&&◌, ◌||◌, List, [],
  ◌∷◌, ◌++◌, Option, some, map, append_assoc, append-nil, arith, Bool-cases, inl, inr,
  if◌then◌else◌,
}
use labfunctions.Text.{Text, teq_comm, any, is_empty, length}
use labfunctions.Query.{any-append}
use labfunctions.Events.{EventSse, format_sse}
use labfunctions.Events.Stream.{
  Entry, event_of, or_empty, publish, has_id, Streams, read, is_exit, last_id, arrived, to_come,
  sent_before, listen_loop,
}

-- No two entries have one id.
abbrev pub is_distinct : List Entry → Bool
is_distinct [] = true
is_distinct (e ∷ es) = not (any (has_id e.id) es) && is_distinct es

abbrev pub all_entries : List (List Entry) → List Entry
all_entries [] = []
all_entries (now ∷ later) = now ++ all_entries later

distinct-middle :
    (front behind : List Entry) (e : Entry)
    → is_distinct (front ++ e ∷ behind) ≡ true
    → (any (has_id e.id) front ≡ false) × (any (has_id e.id) behind ≡ false)
distinct-middle [] behind e h = (refl, ground arith)
distinct-middle (f ∷ front) behind e h =
    let (a, b) = distinct-middle front behind e (ground (arith, h)) in
    (ground (arith, a, h, any-append (has_id f.id) front (e ∷ behind), teq_comm e.id f.id), b)

module _ (redis : Streams) where
  -- The batch of events that are there at a read, and then what comes before each further one: they
  -- are sent until one of them is empty, or has the event that ends the stream.
  abbrev pub batches : List Entry → List (List Entry) → List Entry
  batches [] arrivals = []
  batches (e ∷ es) [] = e ∷ es
  batches (e ∷ es) (now ∷ later) =
      if any (λ x. is_exit redis (event_of x)) (e ∷ es)
      then e ∷ es
      else (e ∷ es) ++ batches now later

  is_empty-map : (es : List Entry) → is_empty (map event_of es) ≡ is_empty es
  is_empty-map [] = refl
  is_empty-map (e ∷ es) = refl

  any-map :
      (es : List Entry)
      → any (is_exit redis) (map event_of es) ≡ any (λ x. is_exit redis (event_of x)) es
  any-map [] = refl
  any-map (e ∷ es) = ap (λ b. is_exit redis (event_of e) || b) (any-map es)

  read_lem :
      (front behind : List Entry) (e : Entry)
      → is_distinct (front ++ e ∷ behind) ≡ true
      → read redis (front ++ e ∷ behind) e.id ≡ map event_of behind
  unfolding read
  read_lem front behind e h =
      let (a, b) = distinct-middle front behind e h in
      ap (map event_of) (redis.xread_lem front behind e a b)

  -- What the listener is sent, as messages.
  abbrev pub messages : List Entry → List Text
  messages es = map (λ e. format_sse (event_of e)) es

  map-map : (es : List Entry) → map format_sse (map event_of es) ≡ messages es
  map-map [] = refl
  map-map (e ∷ es) = ap (λ ms. format_sse (event_of e) ∷ ms) (map-map es)

  messages-append : (xs ys : List Entry) → messages (xs ++ ys) ≡ messages xs ++ messages ys
  messages-append [] ys = refl
  messages-append (x ∷ xs) ys = ap (λ ms. format_sse (event_of x) ∷ ms) (messages-append xs ys)

  is_distinct-prefix : (xs ys : List Entry) → is_distinct (xs ++ ys) ≡ true → is_distinct xs ≡ true
  is_distinct-prefix [] ys h = refl
  is_distinct-prefix (x ∷ xs) ys h =
      ground (arith, h, any-append (has_id x.id) xs ys, is_distinct-prefix xs ys)

  -- The last event of a batch, and its id.
  last_split :
      (d : Text) (x : Entry) (xs : List Entry)
      → (init : List Entry) × (l : Entry) × (x ∷ xs ≡ init ++ l ∷ [])
        × (last_id redis d (map event_of (x ∷ xs)) ≡ l.id)
  unfolding event_of
  last_split d x [] = ([], x, refl, refl)
  last_split d x (y ∷ xs) =
      let (init, l, e, h) = last_split x.id y xs in (x ∷ init, l, ap (λ r. x ∷ r) e, h)

  -- The body of the loop.
  abbrev body : List EventSse → Option (List Text) → Option (List Text)
  body rsp rest =
      if is_empty rsp
      then some []
      else if any (is_exit redis) rsp
      then some (map format_sse rsp)
      else sent_before redis (map format_sse rsp) rest

  body_lem :
      (x : Entry) (xs : List Entry) (later : List (List Entry))
      → body
          (map event_of (x ∷ xs))
          (some (messages (batches (arrived redis later) (to_come redis later))))
        ≡ some (messages (batches (x ∷ xs) later))
  body_lem x xs [] = elim (Bool-cases (any (λ e. is_exit redis (event_of e)) (x ∷ xs))) [
    | inl e ↦ rw (any-map (x ∷ xs), e, map-map)
    | inr e ↦ rw (any-map (x ∷ xs), e, map-map, append-nil)
  ]
  body_lem x xs (now ∷ later) = elim (Bool-cases (any (λ e. is_exit redis (event_of e)) (x ∷ xs))) [
    | inl e ↦ rw (any-map (x ∷ xs), e, map-map)
    | inr e ↦
        rw (any-map (x ∷ xs), e, map-map)
          (sym (ap some (messages-append (x ∷ xs) (batches now later))))
  ]

  -- The loop from an entry that was seen and the events behind it, given that it goes on as told.
  goes_on :
      (fuel : ℕ) (front batch : List Entry) (e : Entry) (later : List (List Entry))
      → ((front' : List Entry) (l : Entry)
          → is_distinct ((front' ++ l ∷ []) ++ all_entries later) ≡ true
          → listen_loop redis fuel l.id (front' ++ l ∷ []) later
            ≡ some (messages (batches (arrived redis later) (to_come redis later))))
      → is_distinct ((front ++ e ∷ batch) ++ all_entries later) ≡ true
      → body (map event_of batch) (
          listen_loop redis fuel
            (last_id redis e.id (map event_of batch))
            (front ++ e ∷ batch)
            later)
        ≡ some (messages (batches batch later))
  goes_on fuel front [] e later next h = refl
  goes_on fuel front (x ∷ xs) e later next h =
      let (init, l, split, last) = last_split e.id x xs in
      let whole = ap (λ b. front ++ e ∷ b) split ∙ sym (append_assoc front (e ∷ init) (l ∷ [])) in
      ap (body (map event_of (x ∷ xs))) (
        ap (λ i. listen_loop redis fuel i (front ++ e ∷ x ∷ xs) later) last
        ∙ ap (λ es. listen_loop redis fuel l.id es later) whole
        ∙ next (front ++ e ∷ init) l
            (sym (ap (λ es. is_distinct (es ++ all_entries later)) whole) ∙ h))
      ∙ body_lem x xs later

  -- One read.
  step :
      (fuel : ℕ) (front behind : List Entry) (e : Entry) (arrivals : List (List Entry))
      → is_distinct (front ++ e ∷ (behind ++ arrived redis arrivals)) ≡ true
      → listen_loop redis (suc fuel) e.id (front ++ e ∷ behind) arrivals
        ≡ body (map event_of (behind ++ arrived redis arrivals)) (
            listen_loop redis fuel
              (last_id redis e.id (map event_of (behind ++ arrived redis arrivals)))
              (front ++ e ∷ (behind ++ arrived redis arrivals))
              (to_come redis arrivals))
  unfolding listen_loop
  step fuel front behind e arrivals h =
      let next = (λ (es : List Entry) (rsp : List EventSse).
        body rsp (listen_loop redis fuel (last_id redis e.id rsp) es (to_come redis arrivals))) in
      ap (λ es. next es (read redis es e.id))
        (append_assoc front (e ∷ behind) (arrived redis arrivals))
      ∙ ap (next (front ++ e ∷ (behind ++ arrived redis arrivals)))
          (read_lem front (behind ++ arrived redis arrivals) e h)

  fewer :
      (arrivals : List (List Entry)) (fuel : ℕ)
      → length arrivals + 1 < suc fuel
      → length (to_come redis arrivals) < fuel
  fewer [] fuel h = ground (arith, h)
  fewer (now ∷ later) fuel h = ground (arith, h)

  -- The entries that are there when a read is done.
  shifted :
      (front behind : List Entry) (e : Entry) (arrivals : List (List Entry))
      → (front ++ e ∷ behind) ++ all_entries arrivals
        ≡ (front ++ e ∷ (behind ++ arrived redis arrivals)) ++ all_entries (to_come redis arrivals)
  shifted front behind e [] = ap (λ b. (front ++ e ∷ b) ++ []) (sym (append-nil behind))
  shifted front behind e (now ∷ later) =
      sym (append_assoc (front ++ e ∷ behind) now (all_entries later))
      ∙ ap (λ es. es ++ all_entries later) (append_assoc front (e ∷ behind) now)

  distinct-shifted :
      (front behind : List Entry) (e : Entry) (arrivals : List (List Entry))
      → is_distinct ((front ++ e ∷ behind) ++ all_entries arrivals) ≡ true
      → is_distinct (
          (front ++ e ∷ (behind ++ arrived redis arrivals)) ++ all_entries (to_come redis arrivals))
        ≡ true
  distinct-shifted front behind e arrivals h =
      sym (ap is_distinct (shifted front behind e arrivals)) ∙ h

  listen_next :
      (arrivals : List (List Entry)) (fuel : ℕ) (front : List Entry) (l : Entry)
      → length arrivals < fuel
      → is_distinct ((front ++ l ∷ []) ++ all_entries arrivals) ≡ true
      → listen_loop redis fuel l.id (front ++ l ∷ []) arrivals
        ≡ some (messages (batches (arrived redis arrivals) (to_come redis arrivals)))
  listen_next arrivals zero front l h d = ground (arith, h)
  listen_next [] (suc fuel) front l h d =
      step fuel front [] l [] (is_distinct-prefix (front ++ l ∷ []) [] d)
  listen_next (now ∷ later) (suc fuel) front l h d =
      let d' = distinct-shifted front [] l (now ∷ later) d in
      step fuel front [] l (now ∷ later)
        (is_distinct-prefix (front ++ l ∷ now) (all_entries later) d')
      ∙ goes_on fuel front now l later
          (λ front' l' k. listen_next later fuel front' l' (ground (arith, h)) k) d'

  -- A listener that starts behind an entry of a stream in which no id stands twice: the loop ends
  -- after at most two reads more than there are arrivals, and the listener is sent the events that
  -- stand behind the entry and those that arrive, once and in their order, up to the first batch
  -- that is empty or that has the event that ends the stream.
  pub listen_loop_lem :
      (fuel : ℕ) (front behind : List Entry) (e : Entry) (arrivals : List (List Entry))
      → length arrivals + 1 < fuel
      → is_distinct ((front ++ e ∷ behind) ++ all_entries arrivals) ≡ true
      → listen_loop redis fuel e.id (front ++ e ∷ behind) arrivals
        ≡ some (messages (batches (behind ++ arrived redis arrivals) (to_come redis arrivals)))
  listen_loop_lem zero front behind e arrivals h d = ground (arith, h)
  listen_loop_lem (suc fuel) front behind e arrivals h d =
      let d' = distinct-shifted front behind e arrivals d in
      step fuel front behind e arrivals (
        is_distinct-prefix (front ++ e ∷ (behind ++ arrived redis arrivals))
          (all_entries (to_come redis arrivals)) d')
      ∙ goes_on fuel front (behind ++ arrived redis arrivals) e (to_come redis arrivals)
          (λ front' l' k.
            listen_next (to_come redis arrivals) fuel front' l' (fewer arrivals fuel h) k)
          d'

  -- An event that is published is what is read behind the last entry, under its new id; an event
  -- without a type is read with the empty type.
  pub read-publish :
      (front : List Entry) (e : Entry) (id : Text) (evt : EventSse)
      → is_distinct (publish id evt (front ++ e ∷ [])) ≡ true
      → read redis (publish id evt (front ++ e ∷ [])) e.id
        ≡ record { text = evt.text; event = some (or_empty evt.event); id = some id } ∷ []
  unfolding publish event_of
  read-publish front e id evt h =
      let new : Entry = record { id = id; msg = evt.text; event = or_empty evt.event } in
      let whole = append_assoc front (e ∷ []) (new ∷ []) in
      ap (λ es. read redis es e.id) whole
      ∙ read_lem front (new ∷ []) e (sym (ap is_distinct whole) ∙ h)
