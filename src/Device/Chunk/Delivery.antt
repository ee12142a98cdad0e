-- ===== src/Device/Chunk/Delivery.antt =====
-- A message that one chunking node sends over a link reaches another one whole.
use embed_bench.Prelude.{
  ℕ, zero, suc, ◌+◌, ◌-◌, ◌*◌, ◌/◌, ◌%◌, ◌^◌, ◌≤◌, ◌<◌, ◌≡◌, ◌≢◌, inl, inr, refl, sym, ap, ap₂, ◌∙◌,
  subst, Bool, true, false, none, some, List, [], ◌∷◌, ◌++◌, ltb, ◌==◌, if◌then◌else◌, min, length,
  take, drop, take_all, take-add, length-take, length-drop, arith, Bool-cases, if_rule,
}
use embed_bench.Trace.{word32}
use embed_bench.Frame.{frame_bytes}
use embed_bench.Device.Port.{HostPort}
use embed_bench.Device.Chunk.{
  Chunk, header_bytes, max_message, frame_gap_us, piece, more_follow, frame_of, frame_bits,
  piece_sent, take_piece, receive, frame_in, resolve, emit_next, after_piece, advance_rounds,
  advance_to, channel_write, write_message, start_message,
}

-- A link that carries every frame of `bits` bits at most to the receiver, as it is at the time `now`.
abbrev pub wire : (bits now : ℕ) → HostPort Chunk
wire bits now = record {
  now_micros = λ r. now;
  line_out = λ line level r. r;
  analog_out = λ line raw r. (false, r);
  request_wake = λ due r. (true, r);
  diagnose = λ text r. (true, r);
  serial_out = λ bytes r. (false, r);
  frame_out = λ bus format frame size r. elim frame [
    | none ↦ (false, r)
    | some bytes ↦
        if ltb bits size
        then (false, r)
        else (true, (frame_in {P = Unit {0}} none format bytes size r tt).0)
  ];
  format_id = λ name schema r. (0, r);
  max_frame_bits = λ bus. bits;
}

-- A piece in sequence is taken whole.
receive_piece :
    (r : Chunk) (seq more n : ℕ) (body : List ℕ)
    → length body ≡ n
    → r.expect_seq ≡ seq
    → (frame_in {P = Unit {0}} none r.format (seq ∷ more ∷ body) ((header_bytes + n) * 8) r tt).0
      ≡ take_piece seq more body r
unfolding frame_in receive resolve frame_bytes
receive_piece r seq more n body len e =
    let bytes : ((header_bytes + n) * 8) / 8
          + (if ((header_bytes + n) * 8) % 8 == 0 then 0 else 1)
          - header_bytes
        ≡ n =
      ground arith in
    let whole = ap (λ k. take k body) bytes ∙ take_all n body (omega (arith, len)) in
    ground (arith, whole)

-- How far the sender and the receiver have got with the message `body`: `n` bytes are over.
record Linked (bits : ℕ) (body : List ℕ) (n : ℕ) (c r : Chunk) : Type 0 where
  sending : c.sending ≡ true
  message : c.pending ≡ body
  short : length body ≤ 32
  sent : c.pending_sent ≡ n
  unfinished : n < length body
  room : 0 < c.per_frame
  carried : (header_bytes + c.per_frame) * 8 ≤ bits
  same_format : r.format ≡ c.format
  in_step : r.expect_seq ≡ c.send_seq
  numbered : c.send_seq ≤ n
  first : c.send_seq ≡ 0 → n ≡ 0
  joined : (if c.send_seq == 0 then [] else r.assembled) ≡ take n body

-- The message is over.
pub record Delivered (body : List ℕ) (received out_of_order : ℕ) (c r : Chunk) : Type 0 where
  pub idle : c.sending ≡ false
  pub whole : r.assembled ≡ body
  pub counted : r.received ≡ (received + 1) % word32
  pub in_order : r.out_of_order ≡ out_of_order

abbrev size_of : Chunk → ℕ
size_of c = min (length c.pending - c.pending_sent) c.per_frame

-- What the receiver makes of the sender's next piece.
abbrev taken : Chunk → Chunk → Chunk
taken c r = take_piece c.send_seq (if more_follow c then 1 else 0) (piece c) r

take_piece-assembled :
    (seq more : ℕ) (body : List ℕ) (r : Chunk)
    → (take_piece seq more body r).assembled
      ≡ (if seq == 0 then [] else r.assembled)
        ++ take (max_message - length (if seq == 0 then [] else r.assembled)) body
unfolding take_piece
take_piece-assembled seq more body r = ground arith

module _ (bits now : ℕ) (c r : Chunk) (body : List ℕ) (n : ℕ) (l : Linked bits body n c r) where
  length-piece : length (piece c) ≡ size_of c
  length-piece = omega (
    arith,
    length-take (size_of c) (drop c.pending_sent c.pending),
    length-drop c.pending_sent c.pending,
  )

  -- The receiver has all up to the end of the piece.
  taken-assembled : (taken c r).assembled ≡ take (n + size_of c) body
  taken-assembled =
      let before : length (if c.send_seq == 0 then [] else r.assembled) ≡ n =
        omega (arith, ap length l.joined, length-take n body, l.unfinished) in
      let fits : length (piece c)
          ≤ max_message - length (if c.send_seq == 0 then [] else r.assembled) =
        omega (arith, before, length-piece, l.short, ap length l.message, l.sent) in
      let part : piece c ≡ take (size_of c) (drop n body) =
        ap₂ (λ k xs. take (size_of c) (drop k xs)) l.sent l.message in
      take_piece-assembled _ _ _ r
      ∙ ap₂ ◌++◌ l.joined (take_all _ (piece c) fits ∙ part)
      ∙ take-add n (size_of c) body

  taken-rest :
      ((taken c r).out_of_order ≡ r.out_of_order)
      × ((taken c r).format ≡ r.format)
      × (more_follow c ≡ true
          → ((taken c r).expect_seq ≡ (c.send_seq + 1) % 256) × ((taken c r).received ≡ r.received))
      × (more_follow c ≡ false → (taken c r).received ≡ (r.received + 1) % word32)
  unfolding take_piece
  taken-rest = ground (arith, l.in_step)

  carried_piece :
      (frame_in {P = Unit {0}} none c.format (frame_of c) (frame_bits c) r tt).0 ≡ taken c r
  carried_piece =
      subst (λ f. (frame_in {P = Unit {0}} none f (frame_of c) (frame_bits c) r tt).0 ≡ taken c r)
        l.same_format (receive_piece r c.send_seq _ (size_of c) (piece c) length-piece l.in_step)

  emit_next_lem :
      emit_next (some (wire bits now)) c r ≡ after_piece (wire bits now) (piece_sent c) (taken c r)
  unfolding emit_next
  emit_next_lem = ground (arith, l.sending, l.carried, carried_piece)

  abbrev finished : Chunk
  finished = record (piece_sent c) { sending = false }

  abbrev waiting : Chunk
  waiting = record (piece_sent c) { next_frame_us = (now + frame_gap_us) % 2 ^ 64 }

  emit_last :
      more_follow c ≡ false → emit_next (some (wire bits now)) c r ≡ (true, finished, taken c r)
  unfolding after_piece
  emit_last e = emit_next_lem ∙ ground (arith, e)

  emit_more :
      more_follow c ≡ true → emit_next (some (wire bits now)) c r ≡ (true, waiting, taken c r)
  unfolding after_piece
  emit_more e = emit_next_lem ∙ ground (arith, e)

  finished-Delivered :
      more_follow c ≡ false → Delivered body r.received r.out_of_order finished (taken c r)
  finished-Delivered e = record {
    idle = refl;
    whole =
        taken-assembled
        ∙ take_all (n + size_of c) body (ground (arith, e, l.sent, ap length l.message));
    counted = taken-rest.3 e;
    in_order = taken-rest.0;
  }

  grows : 1 ≤ size_of c
  grows = omega (arith, l.room, l.sent, l.unfinished, ap length l.message)

  waiting-Linked : more_follow c ≡ true → Linked bits body (n + size_of c) waiting (taken c r)
  waiting-Linked e = record {
    sending = l.sending;
    message = l.message;
    short = l.short;
    sent = omega (arith, l.sent);
    unfinished = ground (arith, e, l.sent, ap length l.message);
    room = l.room;
    carried = l.carried;
    same_format = taken-rest.1 ∙ l.same_format;
    in_step = (taken-rest.2 e).0;
    numbered = omega (arith, l.numbered, grows);
    first = λ h. absurd (omega (arith, l.numbered, l.unfinished, l.short));
    joined =
        if_rule (λ xs. xs ≡ take (n + size_of c) body) {b = (c.send_seq + 1) % 256 == 0}
          (λ b. absurd (ground (arith, b, l.numbered, l.unfinished, l.short)))
          (λ _. taken-assembled);
  }

-- A round that sends a piece.
advance_round :
    (rounds bits now : ℕ) (c r c' r' : Chunk)
    → c.sending ≡ true
    → c.next_frame_us ≤ now
    → emit_next (some (wire bits now)) c r ≡ (true, c', r')
    → advance_rounds (suc rounds) (some (wire bits now)) now c r
      ≡ advance_rounds rounds (some (wire bits now)) now c' r'
unfolding advance_rounds
advance_round rounds bits now c r c' r' s d e = ground (arith, e)

-- A sender with nothing to send stays as it is.
advance_idle :
    (rounds bits now : ℕ) (c r : Chunk)
    → c.sending ≡ false
    → advance_rounds rounds (some (wire bits now)) now c r ≡ (c, r)
unfolding advance_rounds
advance_idle zero bits now c r s = refl
advance_idle (suc rounds) bits now c r s = ground arith

-- A sender whose next piece is not due stays as it is.
advance_early :
    (rounds bits now : ℕ) (c r : Chunk)
    → now < c.next_frame_us
    → advance_rounds rounds (some (wire bits now)) now c r ≡ (c, r)
unfolding advance_rounds
advance_early zero bits now c r s = refl
advance_early (suc rounds) bits now c r s = ground (arith, s)

abbrev pub Ends : List ℕ → ℕ → ℕ → Chunk × Chunk → Type 0
Ends body received out_of_order (c, r) = Delivered body received out_of_order c r

-- The gaps between pieces, one after the other: at the end of each, advanceTo is called for that time,
-- which the link's clock has reached.
abbrev pub pass : (gaps bits now : ℕ) → Chunk → Chunk → Chunk × Chunk
pass zero bits now c r = (c, r)
pass (suc gaps) bits now c r =
    let due = now + frame_gap_us in
    let a = advance_to (some (wire bits due)) due c r in pass gaps bits due a.0 a.1

-- One gap brings one piece over.
advance_to-more :
    (bits now n : ℕ) (body : List ℕ) (c r : Chunk) (l : Linked bits body n c r)
    → c.next_frame_us ≤ now
    → now + frame_gap_us < 2 ^ 64
    → more_follow c ≡ true
    → advance_to (some (wire bits now)) now c r ≡ (waiting bits now c r body n l, taken c r)
unfolding advance_to
advance_to-more bits now n body c r l due room e =
    advance_round 32 bits now c r _ _ l.sending due (emit_more bits now c r body n l e)
    ∙ advance_early 32 bits now _ _ (omega (arith, room))

advance_to-last :
    (bits now n : ℕ) (body : List ℕ) (c r : Chunk) (l : Linked bits body n c r)
    → c.next_frame_us ≤ now
    → more_follow c ≡ false
    → advance_to (some (wire bits now)) now c r ≡ (finished bits now c r body n l, taken c r)
unfolding advance_to
advance_to-last bits now n body c r l due e =
    advance_round 32 bits now c r _ _ l.sending due (emit_last bits now c r body n l e)
    ∙ advance_idle 32 bits now _ _ refl

pass-idle : (gaps bits now : ℕ) (c r : Chunk) → c.sending ≡ false → pass gaps bits now c r ≡ (c, r)
unfolding advance_to
pass-idle zero bits now c r s = refl
pass-idle (suc gaps) bits now c r s =
    ap (λ (a : Chunk × Chunk). pass gaps bits (now + frame_gap_us) a.0 a.1)
      (advance_idle 33 bits (now + frame_gap_us) c r s)
    ∙ pass-idle gaps bits (now + frame_gap_us) c r s

-- The rest of the message, given a gap for each byte that is left.
pass-Ends :
    (gaps bits now : ℕ) (body : List ℕ) (n received out_of_order : ℕ) (c r : Chunk)
    → length body ≤ n + gaps
    → now + suc gaps * frame_gap_us < 2 ^ 64
    → r.received ≡ received
    → r.out_of_order ≡ out_of_order
    → c.next_frame_us ≤ now + frame_gap_us
    → Linked bits body n c r
    → Ends body received out_of_order (pass gaps bits now c r)
pass-Ends zero bits now body n received out_of_order c r enough room er eo due l =
    absurd (omega (arith, enough, l.unfinished))
pass-Ends (suc gaps) bits now body n received out_of_order c r enough room er eo due l =
    let later = now + frame_gap_us in
    let ends =
      λ (a : Chunk × Chunk). Ends body received out_of_order (pass gaps bits later a.0 a.1) in
    elim (Bool-cases (more_follow c)) [
      | inl e ↦
          let t = taken-rest bits later c r body n l in
          let rest =
            pass-Ends gaps bits later body (n + size_of c) received out_of_order
              (waiting bits later c r body n l) (taken c r)
              (omega (arith, enough, grows bits later c r body n l)) (omega (arith, room))
              ((t.2 e).1 ∙ er) (t.0 ∙ eo) (omega arith)
              (waiting-Linked bits later c r body n l e) in
          subst ends (sym (advance_to-more bits later n body c r l due (omega (arith, room)) e))
            rest
      | inr e ↦
          let d = finished-Delivered bits later c r body n l e in
          let over : Ends body received out_of_order (finished bits later c r body n l, taken c r) =
            record {
              idle = d.idle;
              whole = d.whole;
              counted = d.counted ∙ ap (λ k. (k + 1) % word32) er;
              in_order = d.in_order ∙ eo;
            } in
          subst ends (sym (advance_to-last bits later n body c r l due e)) (
            subst (Ends body received out_of_order) (sym (pass-idle gaps bits later _ _ refl)) over)
    ]

-- The sender at the start of a message.
abbrev started : ℕ → ℕ → List ℕ → Chunk → Chunk
started bits bus body c = record c {
  per_frame = bits / 8 - header_bytes;
  send_bus = bus;
  pending = body;
  pending_sent = 0;
  send_seq = 0;
  sending = true;
}

-- One more message begun.
abbrev counted_message : Chunk → Chunk
counted_message c = record c { sent_messages = (c.sent_messages + 1) % word32 }

Linked-counted :
    (bits : ℕ) (body : List ℕ) (n : ℕ) (c r : Chunk)
    → Linked bits body n c r
    → Linked bits body n (counted_message c) r
Linked-counted bits body n c r l = record {
  sending = l.sending;
  message = l.message;
  short = l.short;
  sent = l.sent;
  unfinished = l.unfinished;
  room = l.room;
  carried = l.carried;
  same_format = l.same_format;
  in_step = l.in_step;
  numbered = l.numbered;
  first = l.first;
  joined = l.joined;
}

-- The sender's write to its channel at the time `now`, and then a gap for each byte of the message.
abbrev pub deliver : ℕ → ℕ → ℕ → List ℕ → Chunk → Chunk → Chunk × Chunk
deliver bits bus now body c r =
    let w = channel_write (some (wire bits now)) 0 (bus ∷ body) c r in
    pass (length body) bits now w.1 w.2

channel_write-started :
    (bits now bus : ℕ) (b : ℕ) (body : List ℕ) (c r c' r' : Chunk)
    → c.resolved ≡ true
    → c.format ≢ 0
    → 24 ≤ bits
    → length (b ∷ body) ≤ max_message
    → emit_next (some (wire bits now)) (started bits bus (b ∷ body) c) r ≡ (true, c', r')
    → channel_write (some (wire bits now)) 0 (bus ∷ b ∷ body) c r ≡ (true, counted_message c', r')
unfolding channel_write resolve write_message start_message
channel_write-started bits now bus b body c r c' r' known real wide short e =
    ground (arith, e, known, real)

module _ (bits bus now b : ℕ) (body : List ℕ) (c r : Chunk) (known : c.resolved ≡ true)
    (real : c.format ≢ 0) (same : r.format ≡ c.format) (expecting : r.expect_seq ≡ 0)
    (wide : 24 ≤ bits) (short : length (b ∷ body) ≤ max_message)
    (room : now + suc (length (b ∷ body)) * frame_gap_us < 2 ^ 64) where
  linked : Linked bits (b ∷ body) 0 (started bits bus (b ∷ body) c) r
  linked = record {
    sending = refl;
    message = refl;
    short = short;
    sent = refl;
    unfinished = omega arith;
    room = omega (arith, wide);
    carried = omega (arith, wide);
    same_format = same;
    in_step = expecting;
    numbered = omega arith;
    first = λ _. refl;
    joined = refl;
  }

  -- A sender that knows its format writes a message of at most 32 bytes to its channel, over a link of
  -- at least 24 bits to a receiver with the same format that expects a new message. Then time passes in
  -- gaps of 500 µs, with advanceTo called at the end of each, a gap for each byte, below 2^64: the sender
  -- is idle, and the receiver holds the message whole and has counted one message more, and none out of
  -- order.
  pub deliver-Ends : Ends (b ∷ body) r.received r.out_of_order (deliver bits bus now (b ∷ body) c r)
  deliver-Ends = elim (Bool-cases (more_follow (started bits bus (b ∷ body) c))) [
    | inl e ↦
        let t = taken-rest bits now _ r (b ∷ body) 0 linked in
        let w =
          channel_write-started bits now bus b body c r _ _ known real wide short
            (emit_more bits now _ r (b ∷ body) 0 linked e) in
        subst
          (λ (x : Bool × Chunk × Chunk).
            Ends (b ∷ body) r.received r.out_of_order (pass (length (b ∷ body)) bits now x.1 x.2))
          (sym w)
          (pass-Ends (length (b ∷ body)) bits now (b ∷ body) _ r.received r.out_of_order _ _
            (omega arith) room (t.2 e).1 t.0 (omega arith)
            (Linked-counted bits _ _ _ _ (waiting-Linked bits now _ r (b ∷ body) 0 linked e)))
    | inr e ↦
        let d = finished-Delivered bits now _ r (b ∷ body) 0 linked e in
        let w =
          channel_write-started bits now bus b body c r _ _ known real wide short
            (emit_last bits now _ r (b ∷ body) 0 linked e) in
        let ends : Ends (b ∷ body) r.received r.out_of_order (
          counted_message (finished bits now _ r (b ∷ body) 0 linked),
          taken (started bits bus (b ∷ body) c) r,
        ) =
          record { idle = d.idle; whole = d.whole; counted = d.counted; in_order = d.in_order } in
        subst
          (λ (x : Bool × Chunk × Chunk).
            Ends (b ∷ body) r.received r.out_of_order (pass (length (b ∷ body)) bits now x.1 x.2))
          (sym w)
          (subst (Ends (b ∷ body) r.received r.out_of_order)
            (sym (pass-idle (length (b ∷ body)) bits now _ _ refl)) ends)
  ]
