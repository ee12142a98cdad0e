-- ===== src/Device/Ir/Repeats.antt =====
-- A key that is held sends its code, and then as many repeats as it was pressed for.
use embed_bench.Prelude.{
  ℕ, zero, suc, ◌+◌, ◌-◌, ◌*◌, ◌%◌, ◌^◌, ◌≤◌, ◌<◌, ◌≡◌, ◌≢◌, refl, sym, ap, subst, ◌∙◌, true, false,
  Option, none, some, List, [], ◌∷◌, ◌++◌, replicate, arith,
}
use embed_bench.Trace.{word32}
use embed_bench.Device.Port.{HostPort}
use embed_bench.Device.Ir.{
  Ir, repeat_period_us, resolve, emit_frame, emit, advance_rounds, advance_to, press, channel_write,
}

-- A frame on the air.
pub record Sent : Type 0 where
  pub bus : ℕ
  pub format : ℕ
  pub bytes : Option (List ℕ)
  pub bits : ℕ

-- The time, and the frames that went out, the last one first.
pub record Air : Type 0 where
  pub time : ℕ
  pub frames : List Sent

-- An environment with a clock that takes every frame.
abbrev pub air : HostPort Air
air = record {
  now_micros = λ p. p.time;
  line_out = λ line level p. p;
  analog_out = λ line raw p. (false, p);
  request_wake = λ due p. (true, p);
  diagnose = λ text p. (true, p);
  serial_out = λ bytes p. (false, p);
  frame_out = λ bus format bytes bits p. (
    true,
    record p {
      frames = record { bus = bus; format = format; bytes = bytes; bits = bits } ∷ p.frames;
    },
  );
  format_id = λ name schema p. (0, p);
  max_frame_bits = λ bus. 128;
}

abbrev pub code_frame : Ir → (address command : ℕ) → Sent
code_frame c a b = record { bus = 0; format = c.code_format; bytes = some (a ∷ b ∷ []); bits = 16 }

abbrev pub repeat_frame : Ir → Sent
repeat_frame c = record { bus = 0; format = c.repeat_format; bytes = none; bits = 0 }

-- A unit that knows its formats.
pub record Knows (c : Ir) : Type 0 where
  pub resolved : c.resolved ≡ true
  pub code : c.code_format ≢ 0
  pub rep : c.repeat_format ≢ 0

abbrev counted : Ir → Ir
counted c = record c { sent = (c.sent + 1) % word32 }

abbrev with_frame : Sent → Air → Air
with_frame f p = record p { frames = f ∷ p.frames }

emit-repeat :
    (c : Ir) (p : Air)
    → Knows c
    → emit (some air) true c p ≡ (counted c, with_frame (repeat_frame c) p)
unfolding emit resolve emit_frame
emit-repeat c p k = ground (arith, k.resolved, k.rep)

emit-code :
    (c : Ir) (p : Air)
    → Knows c
    → emit (some air) false c p ≡ (counted c, with_frame (code_frame c c.address c.command) p)
unfolding emit resolve emit_frame
emit-code c p k = ground (arith, k.resolved, k.code)

replicate-end :
    {A : Type 0} (n : ℕ) (x : A) (xs : List A) → replicate n x ++ x ∷ xs ≡ x ∷ replicate n x ++ xs
replicate-end zero x xs = refl
replicate-end (suc n) x xs = ap (λ ys. x ∷ ys) (replicate-end n x xs)

-- The key is released, and the frames and the count of them are these.
pub record Over (frames : List Sent) (sent : ℕ) (r : Ir × Air) : Type 0 where
  pub released : r.0.holding ≡ false
  pub on_air : r.1.frames ≡ frames
  pub told : r.0.sent ≡ sent

-- The unit after a repeat with more to come.
abbrev held_on : Ir → Ir
held_on c = record (counted c) {
  repeats_left = c.repeats_left - 1;
  next_due_us = (c.next_due_us + repeat_period_us) % 2 ^ 64;
}

round_last :
    (rounds now : ℕ) (c : Ir) (p : Air)
    → Knows c
    → c.holding ≡ true
    → c.repeats_left ≡ 0
    → c.next_due_us ≤ now
    → advance_rounds (suc rounds) (some air) now c p
      ≡ (record (counted c) { holding = false }, with_frame (repeat_frame c) p)
unfolding advance_rounds
round_last rounds now c p k h l d = ground (arith, emit-repeat c p k, h, l, d)

round_more :
    (rounds now : ℕ) (c : Ir) (p : Air)
    → Knows c
    → c.holding ≡ true
    → 0 < c.repeats_left
    → c.next_due_us ≤ now
    → advance_rounds (suc rounds) (some air) now c p
      ≡ advance_rounds rounds (some air) now (held_on c) (with_frame (repeat_frame c) p)
unfolding advance_rounds
round_more rounds now c p k h l d = ground (arith, emit-repeat c p k, h, l, d)

round_idle :
    (rounds now : ℕ) (c : Ir) (p : Air)
    → c.holding ≡ false
    → advance_rounds (suc rounds) (some air) now c p ≡ (c, p)
unfolding advance_rounds
round_idle rounds now c p h = ground (arith, h)

advance_rounds-Over :
    (n rounds now : ℕ) (c : Ir) (p : Air)
    → Knows c
    → c.holding ≡ true
    → c.repeats_left ≡ n
    → n < rounds
    → c.next_due_us + n * repeat_period_us ≤ now
    → now < 2 ^ 64
    → Over
        (replicate (suc n) (repeat_frame c) ++ p.frames)
        ((c.sent + (n + 1)) % word32)
        (advance_rounds rounds (some air) now c p)
advance_rounds-Over n zero now c p k h l r d w = absurd (omega (arith, r))
advance_rounds-Over zero (suc rounds) now c p k h l r d w =
    subst (Over (repeat_frame c ∷ p.frames) ((c.sent + 1) % word32))
      (sym (round_last rounds now c p k h l (omega (arith, d))))
      (record { released = refl; on_air = refl; told = refl })
advance_rounds-Over (suc n) (suc rounds) now c p k h l r d w =
    let rest =
      advance_rounds-Over n rounds now (held_on c) (with_frame (repeat_frame c) p)
        (record { resolved = k.resolved; code = k.code; rep = k.rep }) h (omega (arith, l))
        (omega (arith, r)) (omega (arith, d, w)) w in
    subst
      (Over (replicate (suc (suc n)) (repeat_frame c) ++ p.frames)
        ((c.sent + (suc n + 1)) % word32))
      (sym (round_more rounds now c p k h (omega (arith, l)) (omega (arith, d))))
      (record {
        released = rest.released;
        on_air = rest.on_air ∙ replicate-end (suc n) (repeat_frame c) p.frames;
        told = omega (arith, rest.told);
      })

-- The clock runs on to `now`.
abbrev pub at_time : ℕ → Air → Air
at_time now p = record p { time = now }

-- A press of a key, and then a call of advanceTo at the time `now`, which the clock has reached.
abbrev pub hold_until : (now a b n : ℕ) → Ir → Air → Ir × Air
hold_until now a b n c p =
    let w = channel_write (some air) 0 (a ∷ b ∷ n ∷ []) c p in
    advance_to (some air) now w.1 (at_time now w.2)

press-once :
    (a b : ℕ) (c : Ir) (p : Air)
    → Knows c
    → channel_write (some air) 0 (a ∷ b ∷ 0 ∷ []) c p ≡ (
      true,
      record (counted c) { address = a; command = b; repeats_left = 0 },
      with_frame (code_frame c a b) p,
    )
unfolding channel_write press
press-once a b c p k = ground (
  arith,
  emit-code (record c { address = a; command = b }) p
      (record { resolved = k.resolved; code = k.code; rep = k.rep }),
)

press-held :
    (a b n : ℕ) (c : Ir) (p : Air)
    → Knows c
    → channel_write (some air) 0 (a ∷ b ∷ suc n ∷ []) c p ≡ (
      true,
      record (counted c) {
        address = a;
        command = b;
        repeats_left = n;
        holding = true;
        next_due_us = (p.time + repeat_period_us) % 2 ^ 64;
      },
      with_frame (code_frame c a b) p,
    )
unfolding channel_write press
press-held a b n c p k = ground (
  arith,
  emit-code (record c { address = a; command = b }) p
      (record { resolved = k.resolved; code = k.code; rep = k.rep }),
)

-- A unit that knows its formats and holds no key is pressed for `n` repeats, n below 256. Once n periods
-- of 2 ms are over, one call of advanceTo has the key released, and what has gone on the air since before
-- the press is exactly the code in one frame of 16 bits and then n repeat frames, all counted.
pub press-repeats :
    (a b n now : ℕ) (c : Ir) (p : Air)
    → n < 256
    → Knows c
    → c.holding ≡ false
    → p.time + n * repeat_period_us ≤ now
    → now < 2 ^ 64
    → Over
        (replicate n (repeat_frame c) ++ code_frame c a b ∷ p.frames)
        ((c.sent + (n + 1)) % word32)
        (hold_until now a b n c p)
unfolding advance_to
press-repeats a b zero now c p l k h d w =
    subst
      (λ (r : _ × Ir × Air).
        Over (code_frame c a b ∷ p.frames) ((c.sent + 1) % word32)
          (advance_rounds 256 (some air) now r.1 (at_time now r.2)))
      (sym (press-once a b c p k))
      (subst (Over (code_frame c a b ∷ p.frames) ((c.sent + 1) % word32))
        (sym (round_idle 255 now _ _ h)) (record { released = h; on_air = refl; told = refl }))
press-repeats a b (suc n) now c p l k h d w =
    let start : Ir = record (counted c) {
      address = a;
      command = b;
      repeats_left = n;
      holding = true;
      next_due_us = (p.time + repeat_period_us) % 2 ^ 64;
    } in
    let o =
      advance_rounds-Over n 256 now start (at_time now (with_frame (code_frame c a b) p))
        (record { resolved = k.resolved; code = k.code; rep = k.rep }) refl refl (omega (arith, l))
        (omega (arith, d, w)) w in
    subst
      (λ (r : _ × Ir × Air).
        Over (replicate (suc n) (repeat_frame c) ++ code_frame c a b ∷ p.frames)
          ((c.sent + (suc n + 1)) % word32)
          (advance_rounds 256 (some air) now r.1 (at_time now r.2)))
      (sym (press-held a b n c p k))
      (record { released = o.released; on_air = o.on_air; told = omega (arith, o.told) })
