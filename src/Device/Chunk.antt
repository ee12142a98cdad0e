-- ===== src/Device/Chunk.antt =====
-- The chunking node of devices/src/unit_chunk_model.cpp: a message goes out in numbered pieces, one
-- per gap, and is put together again at the far end.
pub mod Delivery
use embed_bench.Prelude.{
  ℕ, zero, suc, ◌+◌, ◌-◌, ◌*◌, ◌/◌, ◌%◌, ◌^◌, Bool, true, false, ◌&&◌, ◌||◌, Option, none, some,
  List, [], ◌∷◌, ◌++◌, ltb, leb, ◌==◌, not, if◌then◌else◌, min, length, get_or, take, drop,
}
use embed_bench.Label.{codes, dec}
use embed_bench.Trace.{word32}
use embed_bench.Frame.{frame_bytes, schema_fingerprint}
use embed_bench.Device.Port.{HostPort, clock, say, wake, printed}

-- The arrays are the lists of their live bytes: `assembled` has assembledLen_, `pending` pendingLen_.
pub record Chunk : Type 0 where
  pub format : ℕ
  pub resolved : Bool
  pub assembled : List ℕ
  pub expect_seq : ℕ
  pub sent_frames : ℕ
  pub sent_messages : ℕ
  pub received : ℕ
  pub refused : ℕ
  pub out_of_order : ℕ
  pub pending : List ℕ
  pub pending_sent : ℕ
  pub per_frame : ℕ
  pub send_bus : ℕ
  pub send_seq : ℕ
  pub next_frame_us : ℕ
  pub sending : Bool

-- reset, and the initial values.
abbrev pub fresh : Chunk
fresh = record {
  format = 0;
  resolved = false;
  assembled = [];
  expect_seq = 0;
  sent_frames = 0;
  sent_messages = 0;
  received = 0;
  refused = 0;
  out_of_order = 0;
  pending = [];
  pending_sent = 0;
  per_frame = 0;
  send_bus = 0;
  send_seq = 0;
  next_frame_us = 0;
  sending = false;
}

abbrev pub header_bytes : ℕ
header_bytes = 2

abbrev pub max_message : ℕ
max_message = 32

abbrev pub frame_gap_us : ℕ
frame_gap_us = 500

-- The bytes of the next piece, and the frame round them: the number, whether more follow, the body.
abbrev pub piece : Chunk → List ℕ
piece c = take (min (length c.pending - c.pending_sent) c.per_frame) (drop c.pending_sent c.pending)

abbrev pub more_follow : Chunk → Bool
more_follow c =
    ltb (c.pending_sent + min (length c.pending - c.pending_sent) c.per_frame) (length c.pending)

abbrev pub frame_of : Chunk → List ℕ
frame_of c = c.send_seq ∷ (if more_follow c then 1 else 0) ∷ piece c

abbrev pub frame_bits : Chunk → ℕ
frame_bits c = (header_bytes + min (length c.pending - c.pending_sent) c.per_frame) * 8

-- A piece the link took.
abbrev pub piece_sent : Chunk → Chunk
piece_sent c = record c {
  send_seq = (c.send_seq + 1) % 256;
  sent_frames = (c.sent_frames + 1) % word32;
  pending_sent = c.pending_sent + min (length c.pending - c.pending_sent) c.per_frame;
}

-- A piece the link refused.
abbrev pub piece_refused : Chunk → Chunk
piece_refused c = record c {
  send_seq = (c.send_seq + 1) % 256;
  refused = (c.refused + 1) % word32;
  sending = false;
}

-- The body of a piece joins what came before it.
unfoldable pub take_piece : ℕ → ℕ → List ℕ → Chunk → Chunk
take_piece seq more body c =
    let before = if seq == 0 then [] else c.assembled in
    let joined = before ++ take (max_message - length before) body in
    if more == 0
    then record c { assembled = joined; expect_seq = 0; received = (c.received + 1) % word32 }
    else record c { assembled = joined; expect_seq = (c.expect_seq + 1) % 256 }

module _ {ℓ} {P : Type ℓ} where
  unfoldable pub resolve : Option (HostPort P) → Chunk → P → Chunk × P
  resolve none c p = (c, p)
  resolve (some h) c p =
      if c.resolved
      then (c, p)
      else (let r =
            h.format_id (codes "m5.chunk.1") (schema_fingerprint (codes "u8 seq,u8 more,u8 body[]"))
              p in
          (record c { format = r.0; resolved = true }, r.1))

  -- After a piece went out: the message is over, or the next piece is due a gap later.
  unfoldable pub after_piece : HostPort P → Chunk → P → Bool × Chunk × P
  after_piece h c p =
      if leb (length c.pending) c.pending_sent then (true, record c { sending = false }, p) else (
        true,
        record c { next_frame_us = (h.now_micros p + frame_gap_us) % 2 ^ 64 },
        (h.request_wake ((h.now_micros p + frame_gap_us) % 2 ^ 64) p).1,
      )

  unfoldable pub emit_next : Option (HostPort P) → Chunk → P → Bool × Chunk × P
  emit_next none c p = (false, c, p)
  emit_next (some h) c p =
      if not c.sending
      then (false, c, p)
      else (let sent = h.frame_out c.send_bus c.format (some (frame_of c)) (frame_bits c) p in
          if sent.0 then after_piece h (piece_sent c) sent.1 else (
            false,
            piece_refused c,
            (h.diagnose (codes "link refused a chunk within its stated capacity") sent.1).1,
          ))

  -- The loop of advanceTo, on rounds: a piece that the link took moves `pending_sent` on.
  unfoldable pub advance_rounds : ℕ → Option (HostPort P) → ℕ → Chunk → P → Chunk × P
  advance_rounds zero port now c p = (c, p)
  advance_rounds (suc rounds) port now c p =
      let next = λ (r : Bool × Chunk × P). advance_rounds rounds port now r.1 r.2 in
      let r = emit_next port c p in
      if c.sending && leb c.next_frame_us now then (if r.0 then next r else (r.1, r.2)) else (c, p)

  -- A message has at most 32 bytes, and each round sends one at least.
  unfoldable pub advance_to : Option (HostPort P) → ℕ → Chunk → P → Chunk × P
  advance_to = advance_rounds (max_message + 1)

  -- The message is taken over, and its first piece goes at once.
  unfoldable pub start_message : Option (HostPort P) → ℕ → List ℕ → Chunk → P → Bool × Chunk × P
  start_message port bus body c p =
      let r =
        emit_next port
          (record c {
            send_bus = bus;
            pending = body;
            pending_sent = 0;
            send_seq = 0;
            sending = true;
          })
          p in
      if r.0
      then (true, record r.1 { sent_messages = (r.1.sent_messages + 1) % word32 }, r.2)
      else (false, r.1, r.2)

  -- channelWrite, once the format is resolved.
  unfoldable pub write_message : Option (HostPort P) → ℕ → List ℕ → Chunk → P → Bool × Chunk × P
  write_message none bus body c p = (false, c, p)
  write_message (some h) bus body c p =
      if c.format == 0
      then (false, c, p)
      else if leb (h.max_frame_bits bus / 8) header_bytes
      then (
        false,
        record c { refused = (c.refused + 1) % word32 },
        (h.diagnose (codes "link too small for a chunk header") p).1,
      )
      else if ltb max_message (length body)
      then (false, record c { per_frame = h.max_frame_bits bus / 8 - header_bytes }, p)
      else start_message (some h) bus body
          (record c { per_frame = h.max_frame_bits bus / 8 - header_bytes }) p

  unfoldable pub channel_write : Option (HostPort P) → ℕ → List ℕ → Chunk → P → Bool × Chunk × P
  channel_write port channel [] c p = (false, c, p)
  channel_write port channel (bus ∷ []) c p = (false, c, p)
  channel_write port channel (bus ∷ b ∷ body) c p =
      if not (channel == 0)
      then (false, c, p)
      else (let r = resolve port c p in write_message port bus (b ∷ body) r.0 r.1)

  -- frameIn, once the format is resolved; `bits` says how long the frame is.
  unfoldable pub receive : Option (HostPort P) → ℕ → List ℕ → ℕ → Chunk → P → Chunk × P
  receive port format frame bits c p =
      if not (format == c.format) || ltb bits (header_bytes * 8)
      then (c, p)
      else if not (get_or frame 0 0 == c.expect_seq)
      then (
        record c { out_of_order = (c.out_of_order + 1) % word32; expect_seq = 0; assembled = [] },
        say port (codes "chunk out of order") p,
      )
      else (
        take_piece (get_or frame 0 0) (get_or frame 1 0)
            (take (frame_bytes bits - header_bytes) (drop header_bytes frame)) c,
        p,
      )

  unfoldable pub frame_in : Option (HostPort P) → ℕ → List ℕ → ℕ → Chunk → P → Chunk × P
  frame_in port format frame bits c p =
      let r = resolve port c p in receive port format frame bits r.0 r.1

-- What channelRead returns and writes; any channel but 1 is 0.
unfoldable pub channel_read : ℕ → ℕ → Chunk → ℕ × List ℕ
channel_read channel cap c =
    if channel == 1 then (length c.assembled, take cap c.assembled) else (0, [])

unfoldable pub dump : ℕ → Chunk → ℕ × List ℕ
dump cap c = printed cap (
    codes "chunk sent="
    ++ dec c.sent_messages
    ++ codes " fr="
    ++ dec c.sent_frames
    ++ codes " rx="
    ++ dec c.received
    ++ codes " len="
    ++ dec (length c.assembled)
    ++ codes " no="
    ++ dec c.refused
    ++ codes " bad="
    ++ dec c.out_of_order)
