-- ===== src/Device/SdCard/Exchange.antt =====
-- Bytes out and bytes back over SPI, and the sessions that write and read a block.
use embed_bench.Prelude.{
  ℕ, ◌≡◌, refl, ap, ◌∙◌, true, Option, none, some, List, [], ◌∷◌, ◌++◌, length, replicate,
}
use embed_bench.Device.Port.{HostPort}
use embed_bench.Device.SdCard.{
  command_phase, read_phase, write_phase, busy_phase, SdCard, store_size, token_start,
  data_accepted, r1_ok, spi_transfer,
}

-- A card that waits for a command, after CMD0.
abbrev pub ready : SdCard → SdCard
ready c = record c { selected = true; phase = command_phase; initialised = true; command = [] }

pub record Ready (c : SdCard) : Type 0 where
  pub selected : c.selected ≡ true
  pub waiting : c.phase ≡ command_phase
  pub initialised : c.initialised ≡ true
  pub no_command : c.command ≡ []
  pub whole : length c.store ≡ store_size

pub Ready-ready : (c : SdCard) → Ready c → c ≡ ready c
Ready-ready c r =
    ap (λ x. record c { selected = x }) r.selected
    ∙ ap (λ x. record c { selected = true; phase = x }) r.waiting
    ∙ ap (λ x. record c { selected = true; phase = command_phase; initialised = x }) r.initialised
    ∙ ap (λ x. record c { selected = true; phase = command_phase; initialised = true; command = x })
        r.no_command

abbrev pub writing : ℕ → List ℕ → SdCard → SdCard
writing n bytes c = record (ready c) { phase = write_phase; offset = n; staging = bytes }

abbrev pub reading : ℕ → SdCard → SdCard
reading n c = record (ready c) { phase = read_phase; offset = n }

-- A card that programs a block until `done`.
abbrev pub programming : ℕ → List ℕ → SdCard → SdCard
programming done bytes c = record (ready c) {
  phase = busy_phase;
  offset = 514;
  staging = bytes;
  done_us = done;
}

-- A command with its block number, the highest three bytes 0, and a checksum.
abbrev pub command_of : (op block crc : ℕ) → List ℕ
command_of op block crc = op ∷ 0 ∷ 0 ∷ 0 ∷ block ∷ crc ∷ []

-- What the application clocks out to write a block: CMD24, a byte for the reply, the start token, the
-- block and its two bytes of checksum.
abbrev pub write_session : (block crc : ℕ) → List ℕ → (idle x y : ℕ) → List ℕ
write_session block crc bytes idle x y =
    command_of 88 block crc ++ (idle ∷ token_start ∷ (bytes ++ (x ∷ y ∷ [])))

abbrev pub write_answers : List ℕ
write_answers = replicate 6 255 ++ (r1_ok ∷ 255 ∷ (replicate 512 255 ++ (255 ∷ data_accepted ∷ [])))

-- What it clocks out to read one: CMD17, a byte for the reply, one for the start token, and a byte
-- for each byte of the block and its checksum.
abbrev pub read_session : (block crc : ℕ) → List ℕ → (idle idle' x y : ℕ) → List ℕ
read_session block crc idles idle idle' x y =
    command_of 81 block crc ++ (idle ∷ idle' ∷ (idles ++ (x ∷ y ∷ [])))

abbrev pub read_answers : List ℕ → List ℕ
read_answers bytes = replicate 6 255 ++ (r1_ok ∷ token_start ∷ (bytes ++ (255 ∷ 255 ∷ [])))

module _ {ℓ} {P : Type ℓ} where
  abbrev pub on_some :
      {B : Type ℓ} → Option (ℕ × SdCard × P) → (ℕ × SdCard × P → Option B) → Option B
  on_some none f = none
  on_some (some t) f = f t

  abbrev pub with_byte : ℕ → Option (List ℕ × SdCard × P) → Option (List ℕ × SdCard × P)
  with_byte x none = none
  with_byte x (some r) = some (x ∷ r.0, r.1, r.2)

  -- The bytes that come back for the bytes that go out.
  abbrev pub exchange : Option (HostPort P) → List ℕ → SdCard → P → Option (List ℕ × SdCard × P)
  exchange port [] c p = some ([], c, p)
  exchange port (m ∷ ms) c p =
      on_some (spi_transfer port m c p) (λ t. with_byte t.0 (exchange port ms t.1 t.2))

  abbrev joined : List ℕ → Option (List ℕ × SdCard × P) → Option (List ℕ × SdCard × P)
  joined xs none = none
  joined xs (some r) = some (xs ++ r.0, r.1, r.2)

  abbrev go_on :
      Option (HostPort P) → List ℕ → Option (List ℕ × SdCard × P) → Option (List ℕ × SdCard × P)
  go_on port ns none = none
  go_on port ns (some r) = joined r.0 (exchange port ns r.1 r.2)

  joined_nil : (o : Option (List ℕ × SdCard × P)) → o ≡ joined [] o
  joined_nil none = refl
  joined_nil (some r) = refl

  with_byte-joined :
      (x : ℕ) (xs : List ℕ) (o : Option (List ℕ × SdCard × P))
      → with_byte x (joined xs o) ≡ joined (x ∷ xs) o
  with_byte-joined x xs none = refl
  with_byte-joined x xs (some r) = refl

  with_byte-go_on :
      (port : Option (HostPort P)) (x : ℕ) (ns : List ℕ) (o : Option (List ℕ × SdCard × P))
      → with_byte x (go_on port ns o) ≡ go_on port ns (with_byte x o)
  with_byte-go_on port x ns none = refl
  with_byte-go_on port x ns (some r) = with_byte-joined x r.0 (exchange port ns r.1 r.2)

  on_some-go_on :
      (port : Option (HostPort P)) (ns : List ℕ) (o : Option (ℕ × SdCard × P))
      (f g : ℕ × SdCard × P → Option (List ℕ × SdCard × P))
      → ((t : ℕ × SdCard × P) → f t ≡ go_on port ns (g t))
      → on_some o f ≡ go_on port ns (on_some o g)
  on_some-go_on port ns none f g h = refl
  on_some-go_on port ns (some t) f g h = h t

  exchange-append :
      (port : Option (HostPort P)) (ms ns : List ℕ) (c : SdCard) (p : P)
      → exchange port (ms ++ ns) c p ≡ go_on port ns (exchange port ms c p)
  exchange-append port [] ns c p = joined_nil (exchange port ns c p)
  exchange-append port (m ∷ ms) ns c p =
      on_some-go_on port ns (spi_transfer port m c p) _
        (λ t. with_byte t.0 (exchange port ms t.1 t.2))
        (λ t.
          ap (with_byte t.0) (exchange-append port ms ns t.1 t.2) ∙ with_byte-go_on port t.0 ns _)

  -- `xs` comes back for `ms`, and the card and its environment are `c'` and `p'` then.
  pub record Talk (port : Option (HostPort P)) (ms xs : List ℕ) (c c' : SdCard) (p p' : P)
      : Type ℓ where
    pub came : exchange port ms c p ≡ some (xs, c', p')

  -- One exchange after another.
  pub exchange_two :
      {port : Option (HostPort P)} {ms ns xs ys : List ℕ} {c c' c'' : SdCard} {p p' p'' : P}
      → Talk port ms xs c c' p p'
      → Talk port ns ys c' c'' p' p''
      → Talk port (ms ++ ns) (xs ++ ys) c c'' p p''
  exchange_two {port = port} {ms = ms} {ns = ns} {xs = xs} {c = c} {p = p} e f = record {
    came = exchange-append port ms ns c p ∙ ap (go_on port ns) e.came ∙ ap (joined xs) f.came;
  }

  -- One byte, and an exchange after it.
  pub exchange_one :
      {port : Option (HostPort P)} {m x : ℕ} {ms xs : List ℕ} {c c' c'' : SdCard} {p p' p'' : P}
      → spi_transfer port m c p ≡ some (x, c', p')
      → Talk port ms xs c' c'' p' p''
      → Talk port (m ∷ ms) (x ∷ xs) c c'' p p''
  exchange_one {port = port} {ms = ms} e f = record {
    came =
        ap (λ o. on_some o (λ t. with_byte t.0 (exchange port ms t.1 t.2))) e
        ∙ ap (with_byte _) f.came;
  }

  pub hush : {port : Option (HostPort P)} {c : SdCard} {p : P} → Talk port [] [] c c p p
  hush = record { came = refl }
