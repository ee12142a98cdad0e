-- ===== src/Host/Contract/Rules.antt =====
-- Rules for `Keeps`, one for each way to build an action.
use embed_bench.Prelude.{
  ℕ, suc, ◌+◌, ◌-◌, ◌%◌, ◌≡◌, refl, ◌∙◌, Bool, true, false, Option, none, some, arith,
  if◌then◌else◌, ltb,
}
use embed_bench.Trace.{word32}
use embed_bench.Host.State.{State}
use embed_bench.Host.Monad.{
  Sys, M, pure, get, peek, modify, outside, when, give_up, maybe, ◌>>=◌, ◌>>◌,
}
use embed_bench.Host.Deferral.{enter, leave, on_reentry, in_device}
use embed_bench.Host.Clock.{enter_director, as_director}
use embed_bench.Host.Contract.{Evolves, Keeps}

pub Evolves-refl : {n : ℕ} (a : State) → Evolves n a a
Evolves-refl a = record {
  depth = λ _. refl;
  director = λ _. refl;
  interrupt = λ _. refl;
  sound = λ h. h;
}

pub Evolves-trans : {n : ℕ} {a b c : State} → Evolves n a b → Evolves n b c → Evolves n a c
Evolves-trans {a} {b} {c} p q = record {
  depth = λ h. let e = p.depth h in q.depth (omega (arith, e)) ∙ e;
  director = λ h. let e = p.director h in q.director (omega (arith, e)) ∙ e;
  interrupt = λ h. let e = p.interrupt h in q.interrupt (omega (arith, e)) ∙ e;
  sound = λ h. q.sound (p.sound h);
}

-- enterDevice and leaveDevice cancel out round a call that returns.
device-Evolves :
    {n : ℕ} (a b : State)
    → Evolves n (record a { reentry = enter a.reentry }) b
    → Evolves (suc n) a (record b { reentry = leave b.reentry })
unfolding enter leave
device-Evolves a b r = record {
  depth = λ h. let e = r.depth (omega arith) in ground (arith, e);
  director = r.director;
  interrupt = λ h. r.interrupt (omega arith);
  sound = λ h.
      let t = r.sound (record {
        buffer = h.buffer;
        books = h.books;
        queue = h.queue;
        peak = ground arith;
        wakes = h.wakes;
        wire = h.wire;
        formats = h.formats;
        listeners = h.listeners;
        director = h.director;
      }) in
      record {
        buffer = t.buffer;
        books = t.books;
        queue = t.queue;
        peak = ground (arith, t.peak);
        wakes = t.wakes;
        wire = t.wire;
        formats = t.formats;
        listeners = t.listeners;
        director = t.director;
      };
}

director-Evolves :
    {n : ℕ} (a b : State)
    → Evolves n
        (record a { context = record a.context { dir_depth = (a.context.dir_depth + 1) % word32 } })
        b
    → Evolves n a (record b {
      context = record b.context { dir_depth = (b.context.dir_depth + word32 - 1) % word32 };
    })
director-Evolves a b r = record {
  depth = r.depth;
  director = λ h. omega (arith, r.director (omega arith));
  interrupt = r.interrupt;
  sound = λ h.
      let t = r.sound (record {
        buffer = h.buffer;
        books = h.books;
        queue = h.queue;
        peak = h.peak;
        wakes = h.wakes;
        wire = h.wire;
        formats = h.formats;
        listeners = h.listeners;
        director = omega arith;
      }) in
      record {
        buffer = t.buffer;
        books = t.books;
        queue = t.queue;
        peak = t.peak;
        wakes = t.wakes;
        wire = t.wire;
        formats = t.formats;
        listeners = t.listeners;
        director = omega arith;
      };
}

-- The entry into an interrupt handler and the exit from it cancel out round a handler that returns.
pub isr-Evolves :
    {n : ℕ} (a b : State)
    → Evolves n
        (record a { context = record a.context { isr_depth = (a.context.isr_depth + 1) % word32 } })
        b
    → Evolves (suc n) a (record b {
      context = record b.context {
        isr_depth =
            if ltb 0 b.context.isr_depth then b.context.isr_depth - 1 else b.context.isr_depth;
      };
    })
isr-Evolves a b r = record {
  depth = λ h. r.depth (omega (arith, h));
  director = r.director;
  interrupt = λ h. let e = r.interrupt (omega (arith, h)) in ground (arith, e, h);
  sound = λ h.
      let t = r.sound (record {
        buffer = h.buffer;
        books = h.books;
        queue = h.queue;
        peak = h.peak;
        wakes = h.wakes;
        wire = h.wire;
        formats = h.formats;
        listeners = h.listeners;
        director = h.director;
      }) in
      record {
        buffer = t.buffer;
        books = t.books;
        queue = t.queue;
        peak = t.peak;
        wakes = t.wakes;
        wire = t.wire;
        formats = t.formats;
        listeners = t.listeners;
        director = t.director;
      };
}

module _ {ℓ κ} {W : Type ℓ} {n : ℕ} {A : Type κ} where
  pub Keeps-pure : (a : A) → Keeps {W = W} n (pure a)
  unfolding pure
  Keeps-pure a = record { at = λ s. Evolves-refl s.host }

  pub Keeps-get : (f : State → A) → Keeps {W = W} n (get f)
  unfolding get
  Keeps-get f = record { at = λ s. Evolves-refl s.host }

  pub Keeps-peek : (f : Sys W → A) → Keeps n (peek f)
  unfolding peek
  Keeps-peek f = record { at = λ s. Evolves-refl s.host }

  pub Keeps-if : (b : Bool) (m k : M W A) → Keeps n m → Keeps n k → Keeps n (if b then m else k)
  Keeps-if true m k km kk = km
  Keeps-if false m k km kk = kk

  -- A call that may nest less may nest more.
  pub Keeps-call : (m : M W A) → Keeps n m → Keeps (suc n) m
  Keeps-call m h = record {
    at = λ s.
        let e = h.at s in
        record {
          depth = λ d. e.depth (omega arith);
          director = e.director;
          interrupt = λ d. e.interrupt (omega arith);
          sound = e.sound;
        };
  }

  pub Keeps-in_device : (m : M W A) → Keeps n m → Keeps (suc n) (in_device m)
  unfolding in_device ◌>>◌ ◌>>=◌
  Keeps-in_device m h = record {
    at = λ s. device-Evolves s.host _ (h.at (record s { host = on_reentry enter s.host }));
  }

  pub Keeps-as_director : (m : M W A) → Keeps n m → Keeps n (as_director m)
  unfolding as_director ◌>>◌ ◌>>=◌
  Keeps-as_director m k = record {
    at = λ s. director-Evolves s.host _ (k.at (record s { host = enter_director s.host }));
  }

module _ {ℓ} {W : Type ℓ} {n : ℕ} where
  pub Keeps-modify :
      (f : State → State) → ((s : State) → Evolves n s (f s)) → Keeps {W = W} n (modify f)
  unfolding modify
  Keeps-modify f h = record { at = λ s. h s.host }

  pub Keeps-outside : (f : W → W) → Keeps n (outside f)
  unfolding outside
  Keeps-outside f = record { at = λ s. Evolves-refl s.host }

  pub Keeps-give_up : Keeps {W = W} n give_up
  unfolding give_up
  Keeps-give_up = record { at = λ s. Evolves-refl s.host }

  pub Keeps-when : (b : Bool) (m : M W (Unit {0})) → Keeps n m → Keeps n (when b m)
  unfolding when
  Keeps-when true m k = k
  Keeps-when false m k = Keeps-pure tt

module _ {ℓ κ μ} {W : Type ℓ} {n : ℕ} {A : Type κ} {B : Type μ} where
  pub Keeps-bind :
      (m : M W A) (f : A → M W B) → Keeps n m → ((a : A) → Keeps n (f a)) → Keeps n (m >>= f)
  unfolding ◌>>=◌
  Keeps-bind m f km kf = record { at = λ s. Evolves-trans (km.at s) ((kf (m s).0).at (m s).1) }

  pub Keeps-maybe :
      (x : Option A) (m : M W B) (k : A → M W B)
      → Keeps n m
      → ((a : A) → Keeps n (k a))
      → Keeps n (maybe x m k)
  unfolding maybe
  Keeps-maybe none m k km kk = km
  Keeps-maybe (some a) m k km kk = kk a

module _ {ℓ κ μ} {W : Type ℓ} {n : ℕ} {A : Type κ} {B : Type μ} where
  -- What follows a read may use what was read.
  pub Keeps-read :
      (f : State → A) (k : A → M W B)
      → ((s : Sys W) → Evolves n s.host (k (f s.host) s).1.host)
      → Keeps n (get f >>= k)
  unfolding ◌>>=◌ get
  Keeps-read f k h = record { at = h }

  pub maybe-Evolves :
      (x : Option A) (m : M W B) (k : A → M W B) (s : Sys W)
      → (x ≡ none → Evolves n s.host (m s).1.host)
      → ((a : A) → x ≡ some a → Evolves n s.host (k a s).1.host)
      → Evolves n s.host (maybe x m k s).1.host
  unfolding maybe
  maybe-Evolves none m k s h g = h refl
  maybe-Evolves (some a) m k s h g = g a refl

module _ {ℓ κ} {W : Type ℓ} {n : ℕ} {A : Type κ} where
  pub if_Evolves :
      (b : Bool) (m k : M W A) (s : Sys W)
      → (b ≡ true → Evolves n s.host (m s).1.host)
      → (b ≡ false → Evolves n s.host (k s).1.host)
      → Evolves n s.host ((if b then m else k) s).1.host
  if_Evolves true m k s h g = h refl
  if_Evolves false m k s h g = g refl

module _ {ℓ κ} {W : Type ℓ} {n : ℕ} {B : Type κ} where
  pub Keeps-then : (m : M W (Unit {0})) (k : M W B) → Keeps n m → Keeps n k → Keeps n (m >> k)
  unfolding ◌>>◌
  Keeps-then m k km kk = Keeps-bind m (λ _. k) km (λ _. kk)

pub ruleset keeps_rules = (
  Keeps-pure, Keeps-get, Keeps-peek, Keeps-if, Keeps-outside, Keeps-give_up, Keeps-when, Keeps-bind,
  Keeps-maybe, Keeps-then,
)
